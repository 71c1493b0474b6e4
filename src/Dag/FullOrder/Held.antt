-- ===== src/Dag/FullOrder/Held.antt =====
-- A block that waits on the stack for the blocks above it, and what the loop keeps.
use xelis_blockchain.Prelude.{
  ℕ, ◌<◌, ◌≡◌, sym, ap, ◌∙◌, subst, ◌≢◌, ◌⊎◌, inl, inr, List, [], ◌∷◌, ◌++◌, append_assoc, arith,
  Bool-cases,
}
use xelis_blockchain.Prelude.Equality.{Eq, contains, beq_refl, contains-append}
use xelis_blockchain.Dag.{Provider}
use xelis_blockchain.Dag.Compare.{In}
use xelis_blockchain.Dag.FullOrder.Step.{IsDep, Reaches, self, along}

head_eq : {A : Type 0} {x y : A} {xs ys : List A} → x ∷ xs ≡ y ∷ ys → x ≡ y
head_eq h = cc h

tail_eq : {A : Type 0} {x y : A} {xs ys : List A} → x ∷ xs ≡ y ∷ ys → xs ≡ ys
tail_eq h = cc h

module _ {K E : Type 0} ⦃e : Eq K⦄ (p : Provider K E) (base : K) (base_topo_height : ℕ) where
  pub Reaches-trans :
      {x y z : K}
      → Reaches p base base_topo_height x y
      → Reaches p base base_topo_height y z
      → Reaches p base base_topo_height x z
  Reaches-trans r self = r
  Reaches-trans r (along s d) = along (Reaches-trans r s) d

  -- The blocks above `x` on the stack are lower in the DAG, and have all of its tips that are missing.
  pub record Held (height : K → ℕ) (x : K) (stack order : List K) : Type 0 where
    pub above : List K
    pub below : List K
    pub split : stack ≡ above ++ x ∷ below
    pub lower : (y : K) → In above y → height y < height x
    pub waits : (t : K) → IsDep p base base_topo_height x t → In order t ⊎ In above t

  module _ (height : K → ℕ) where
    waits_more :
        (c : K) (order order' above : List K)
        → ((t : K) → In order t → In order' t)
        → In order' c
        → (t : K) → In order t ⊎ In (c ∷ above) t
        → In order' t ⊎ In above t
    waits_more c order order' above grows done t (inl i) = inl (grows t i)
    waits_more c order order' above grows done t (inr i) = elim (Bool-cases (e.beq c t)) [
      | inl q ↦ inl (subst (In order') ((e.beq_iff c t).0 q) done)
      | inr q ↦ inr (ground (arith, i, q))
    ]

    popped :
        (c x : K) (rest order order' above below : List K)
        → c ∷ rest ≡ above ++ x ∷ below
        → ((y : K) → In above y → height y < height x)
        → ((t : K) → IsDep p base base_topo_height x t → In order t ⊎ In above t)
        → ((t : K) → In order t → In order' t)
        → In order' c
        → In order' x ⊎ Held height x rest order'
    popped c x rest order order' [] below q l w grows done = inl (cc (q, done))
    popped c x rest order order' (y ∷ above) below q l w grows done = inr (record {
      above = above;
      below = below;
      split = cc q;
      lower = λ z i. l z (ground (arith, i));
      waits = λ t d.
          waits_more c order order' above grows done t
            (subst (λ k. In order t ⊎ In (k ∷ above) t) (cc q) (w t d));
    })

    pub Held-pop :
        (c x : K) (rest order order' : List K)
        → Held height x (c ∷ rest) order
        → ((t : K) → In order t → In order' t)
        → In order' c
        → In order' x ⊎ Held height x rest order'
    Held-pop c x rest order order' h grows done =
        popped c x rest order order' h.above h.below h.split h.lower h.waits grows done

    pushed :
        (c x : K) (rest order top above below : List K)
        → c ∷ rest ≡ above ++ x ∷ below
        → ((y : K) → In above y → height y < height x)
        → ((t : K) → IsDep p base base_topo_height x t → In order t ⊎ In above t)
        → c ≢ x
        → ((y : K) → In top y → height y < height c)
        → Held height x (top ++ c ∷ rest) order
    pushed c x rest order top [] below q l w other low = absurd (other (cc q))
    pushed c x rest order top (y ∷ above) below q l w other low =
        let l' : (z : K) → In (c ∷ above) z → height z < height x =
          subst (λ k. (z : K) → In (k ∷ above) z → height z < height x) (sym (head_eq q)) l in
        let w' : (t : K) → IsDep p base base_topo_height x t → In order t ⊎ In (c ∷ above) t =
          subst (λ k. (t : K) → IsDep p base base_topo_height x t → In order t ⊎ In (k ∷ above) t)
            (sym (head_eq q)) w in
        record {
          above = top ++ c ∷ above;
          below = below;
          split =
              ap (λ k. top ++ c ∷ k) (tail_eq q) ∙ sym (append_assoc top (c ∷ above) (x ∷ below));
          lower = λ z i. elim (Bool-cases (contains z top)) [
            | inl m ↦ omega (arith, low z m, l' c (ground (arith, beq_refl e c)))
            | inr m ↦ l' z (ground (arith, contains-append z top (c ∷ above), i, m))
          ];
          waits = λ t d. ground (arith, w' t d, contains-append t top (c ∷ above));
        }

    -- What is on top of the stack has all its tips in the order.
    topmost :
        (x : K) (rest order above below : List K)
        → x ∷ rest ≡ above ++ x ∷ below
        → ((y : K) → In above y → height y < height x)
        → ((t : K) → IsDep p base base_topo_height x t → In order t ⊎ In above t)
        → (t : K) → IsDep p base base_topo_height x t
        → In order t
    topmost x rest order [] below q l w t d = elim (w t d) [ inl i ↦ i | inr i ↦ cc i ]
    topmost x rest order (y ∷ above) below q l w t d = absurd (
        omega
          (arith, l x (subst (λ z. In (z ∷ above) x) (head_eq q) (ground (arith, beq_refl e x)))))

    pub Held-push :
        (c x : K) (rest order top : List K)
        → Held height x (c ∷ rest) order
        → c ≢ x
        → ((y : K) → In top y → height y < height c)
        → Held height x (top ++ c ∷ rest) order
    Held-push c x rest order top h =
        pushed c x rest order top h.above h.below h.split h.lower h.waits

    pub Held-ready :
        (x : K) (rest order : List K)
        → Held height x (x ∷ rest) order
        → (t : K) → IsDep p base base_topo_height x t
        → In order t
    Held-ready x rest order h = topmost x rest order h.above h.below h.split h.lower h.waits
