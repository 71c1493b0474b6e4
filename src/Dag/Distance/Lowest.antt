-- ===== src/Dag/Distance/Lowest.antt =====
-- What the distance from the main chain is.
use xelis_blockchain.Prelude.{
  ℕ, ◌-◌, ◌^◌, ◌≤◌, ◌≡◌, refl, sym, ap, ◌∙◌, subst, ◌⊎◌, inl, inr, true, false, ◌||◌, List, [], ◌∷◌,
  ◌++◌, append_assoc, arith, ltb, if◌then◌else◌, Bool-cases, length, length-append,
}
use xelis_blockchain.Prelude.Results.{ok, >>=-eq-ok, ok_injective, if_cases}
use xelis_blockchain.Prelude.Equality.{Eq, contains, contains-append, beq_refl}
use xelis_blockchain.Dag.{Provider, extend}
use xelis_blockchain.Dag.Compare.{In, contains-extend}
use xelis_blockchain.Dag.Distance.{scan_tips}

module _ {K E : Type 0} ⦃e : Eq K⦄ (p : Provider K E) where
  -- A block of the branch of a hash: itself, and the tips that are not ordered.
  pub data Branch (x : K) : K → Type 0 where
    self : Branch x x
    along :
        {y z : K} (tips : List K)
        → Branch x y
        → p.get_past_blocks_for_block_hash y ≡ ok tips
        → In tips z
        → p.is_block_topological_ordered z ≡ false
        → Branch x z

  -- An ordered tip of a block of the branch, where it leaves the main chain.
  pub record IsRoot (x : K) (t : K) (height : ℕ) : Type 0 where
    pub block : K
    pub branch : Branch x block
    pub tips : List K
    pub past : p.get_past_blocks_for_block_hash block ≡ ok tips
    pub inside : In tips t
    pub ordered : p.is_block_topological_ordered t ≡ true
    pub at_height : p.get_height_for_block_hash t ≡ ok height

  -- What a scan of the tips `ts` does.
  pub record Scanned (ts : List K) (low : ℕ) (stack : List K) (next : ℕ × List K) : Type 0 where
    pub top : List K
    pub split : next.1 ≡ top ++ stack
    pub from_tips : (y : K) → In top y → In ts y × (p.is_block_topological_ordered y ≡ false)
    pub pushed : (y : K) → In ts y → p.is_block_topological_ordered y ≡ false → In top y
    pub few : length top ≤ length ts
    pub lower : next.0 ≤ low
    pub least :
        (y : K) (n : ℕ)
        → In ts y
        → p.is_block_topological_ordered y ≡ true
        → p.get_height_for_block_hash y ≡ ok n
        → next.0 ≤ n
    pub attained :
        (next.0 ≡ low)
        ⊎ ((y : K) × In ts y
            × (p.is_block_topological_ordered y ≡ true)
            × (p.get_height_for_block_hash y ≡ ok next.0))

  pub scanned :
      (ts : List K) (low : ℕ) (stack : List K) (next : ℕ × List K)
      → scan_tips p ts low stack ≡ ok next
      → Scanned ts low stack next
  unfolding scan_tips
  scanned [] low stack next h = subst (Scanned [] low stack) (ok_injective refl h) (record {
    top = [];
    split = refl;
    from_tips = λ y m. cc m;
    pushed = λ y m o. cc m;
    few = omega arith;
    lower = omega arith;
    least = λ y n m o k. cc m;
    attained = inl refl;
  })
  scanned (t ∷ ts) low stack next h = elim (if_cases (p.is_block_topological_ordered t) h) [
    | inl (o, r) ↦
        let (n, k, r1) = >>=-eq-ok (p.get_height_for_block_hash t) _ r in
        let s = scanned ts (if ltb n low then n else low) stack next r1 in
        record {
          top = s.top;
          split = s.split;
          from_tips = λ y m. ground (arith, s.from_tips y m);
          pushed = λ y m u. elim (Bool-cases (e.beq t y)) [
            | inl f ↦ cc (o, u, (e.beq_iff t y).0 f)
            | inr f ↦ s.pushed y (ground (arith, m, f)) u
          ];
          few = omega (arith, s.few);
          lower = ground (arith, s.lower);
          least = λ y n' m u k'. elim (Bool-cases (e.beq t y)) [
            | inl f ↦ ground (
              arith,
              s.lower,
              ok_injective (ap p.get_height_for_block_hash ((e.beq_iff t y).0 f) ∙ k') k,
            )
            | inr f ↦ s.least y n' (ground (arith, m, f)) u k'
          ];
          attained = elim s.attained [
            | inr (y, m, u, g) ↦ inr (y, ground (arith, m), u, g)
            | inl q ↦ elim (Bool-cases (ltb n low)) [
              | inl f ↦ inr (t, ground (arith, beq_refl e t), o, k ∙ ap ok (sym (q ∙ rw f refl)))
              | inr f ↦ inl (q ∙ rw f refl)
            ]
          ];
        }
    | inr (o, r) ↦
        let s = scanned ts low (t ∷ stack) next r in
        record {
          top = s.top ++ t ∷ [];
          split = s.split ∙ sym (append_assoc s.top (t ∷ []) stack);
          from_tips = λ y m. elim (Bool-cases (e.beq t y)) [
            | inl f ↦ (
              ground (arith, f),
              subst (λ z. p.is_block_topological_ordered z ≡ false) ((e.beq_iff t y).0 f) o,
            )
            | inr f ↦
                ground
                  (arith, s.from_tips y (ground (arith, m, f, contains-append y s.top (t ∷ []))))
          ];
          pushed = λ y m u. ground (arith, s.pushed y, m, u, contains-append y s.top (t ∷ []));
          few = omega (arith, s.few, length-append s.top (t ∷ []));
          lower = s.lower;
          least = λ y n' m u k'. elim (Bool-cases (e.beq t y)) [
            | inl f ↦ cc (o, u, (e.beq_iff t y).0 f)
            | inr f ↦ s.least y n' (ground (arith, m, f)) u k'
          ];
          attained = elim s.attained [
            | inl q ↦ inl q
            | inr (y, m, u, k) ↦ inr (y, ground (arith, m), u, k)
          ];
        }
  ]

  module _ (hash : K) where
    pub record Inv (low : ℕ) (processed stack : List K) : Type 0 where
      pub waits : (y : K) → In stack y → Branch hash y
      pub below :
          (y t : K) (tips : List K) (n : ℕ)
          → In processed y
          → p.get_past_blocks_for_block_hash y ≡ ok tips
          → In tips t
          → p.is_block_topological_ordered t ≡ true
          → p.get_height_for_block_hash t ≡ ok n
          → low ≤ n
      pub followed :
          (y t : K) (tips : List K)
          → In processed y
          → p.get_past_blocks_for_block_hash y ≡ ok tips
          → In tips t
          → p.is_block_topological_ordered t ≡ false
          → In processed t ⊎ In stack t
      pub started : In processed hash ⊎ In stack hash
      pub attained : (low ≡ 2 ^ 64 - 1) ⊎ ((t : K) × IsRoot hash t low)

    -- A block that has been processed is popped.
    pub Inv-skip :
        (low : ℕ) (processed : List K) (x : K) (stack : List K)
        → In processed x
        → Inv low processed (x ∷ stack)
        → Inv low processed stack
    Inv-skip low processed x stack m i = record {
      waits = λ y k. i.waits y (ground (arith, k));
      below = i.below;
      followed = λ y t tips a b c d. again t (i.followed y t tips a b c d);
      started = again hash i.started;
      attained = i.attained;
    }
      where
        again : (y : K) → In processed y ⊎ In (x ∷ stack) y → In processed y ⊎ In stack y
        again y h = elim (Bool-cases (e.beq x y)) [
          | inl f ↦ inl (subst (In processed) ((e.beq_iff x y).0 f) m)
          | inr f ↦ ground (arith, h, f)
        ]

    pub Inv-scan :
        (low : ℕ) (processed : List K) (x : K) (stack tips : List K) (next : ℕ × List K)
        → Inv low processed (x ∷ stack)
        → p.get_past_blocks_for_block_hash x ≡ ok tips
        → Scanned tips low stack next
        → Inv next.0 (extend processed (x ∷ [])) next.1
    Inv-scan low processed x stack tips next i q s = record {
      waits = λ y k. elim (Bool-cases (contains y s.top)) [
        | inl m ↦ along tips here q (s.from_tips y m).0 (s.from_tips y m).1
        | inr m ↦ i.waits y (ground (arith, on_stack y, k, m))
      ];
      below = λ y t ts n a b c d g. elim (Bool-cases (e.beq x y)) [
        | inl f ↦
            s.least t n
              (subst (λ l. In l t)
                (ok_injective b
                  (ap p.get_past_blocks_for_block_hash (sym ((e.beq_iff x y).0 f)) ∙ q))
                c)
              d g
        | inr f ↦
            omega (arith, s.lower, i.below y t ts n (ground (arith, a, f, in_processed y)) b c d g)
      ];
      followed = λ y t ts a b c d. elim (Bool-cases (e.beq x y)) [
        | inl f ↦ inr (
            ground (
              arith,
              on_stack t,
              s.pushed t
                  (subst (λ l. In l t)
                    (ok_injective b
                      (ap p.get_past_blocks_for_block_hash (sym ((e.beq_iff x y).0 f)) ∙ q))
                    c)
                  d,
            ))
        | inr f ↦ ground (
          arith,
          on_stack t,
          in_processed t,
          i.followed y t ts (ground (arith, a, f, in_processed y)) b c d,
        )
      ];
      started = ground (arith, i.started, on_stack hash, in_processed hash);
      attained = elim s.attained [
        | inl k ↦ elim i.attained [
          | inl l ↦ inl (k ∙ l)
          | inr (t, r) ↦ inr (t, subst (IsRoot hash t) (sym k) r)
        ]
        | inr (t, m, o, g) ↦ inr (
          t,
          record {
            block = x;
            branch = here;
            tips = tips;
            past = q;
            inside = m;
            ordered = o;
            at_height = g;
          },
        )
      ];
    }
      where
        here : Branch hash x
        here = i.waits x (ground (arith, beq_refl e x))

        on_stack : (y : K) → contains y next.1 ≡ (contains y s.top || contains y stack)
        on_stack y = ap (contains y) s.split ∙ contains-append y s.top stack

        in_processed :
            (y : K) → contains y (extend processed (x ∷ [])) ≡ (contains y processed || e.beq x y)
        in_processed y = ground (arith, contains-extend y processed (x ∷ []))
