-- ===== src/Dag/FullOrder/Closed.antt =====
-- Lists in which each block comes after those it depends on, and how sets that are lists grow.
use xelis_blockchain.Prelude.{
  suc, ◌≤◌, ◌≡◌, refl, sym, ap, subst, inl, inr, true, false, List, [], ◌∷◌, ◌++◌, append_assoc,
  append-nil, arith, if◌then◌else◌, Bool-cases, length, length-append,
}
use xelis_blockchain.Prelude.Equality.{
  Eq, contains, contains-append, IsDistinct, IsDistinct-append, beq_refl,
}
use xelis_blockchain.Dag.{extend}
use xelis_blockchain.Dag.Compare.{In}

module _ {K : Type 0} ⦃e : Eq K⦄ where
  pub extend-IsDistinct : (set xs : List K) → IsDistinct set → IsDistinct (extend set xs)
  unfolding extend
  extend-IsDistinct set [] d = d
  extend-IsDistinct set (x ∷ xs) d = elim (Bool-cases (contains x set)) [
    | inl m ↦ rw m (extend-IsDistinct set xs d)
    | inr m ↦ rw m (extend-IsDistinct (set ++ x ∷ []) xs (IsDistinct-append set x d m))
  ]

  pub length-extend_new :
      (set : List K) (x : K)
      → contains x set ≡ false
      → length (extend set (x ∷ [])) ≡ suc (length set)
  unfolding extend
  length-extend_new set x m = rw m (omega (arith, length-append set (x ∷ [])))

  -- The list without the first occurrence of `x`.
  without : K → List K → List K
  without x [] = []
  without x (y ∷ ys) = if e.beq y x then ys else y ∷ without x ys

  length-without : (x : K) (ys : List K) → In ys x → length ys ≡ suc (length (without x ys))
  unfolding without
  length-without x [] m = cc m
  length-without x (y ∷ ys) m = elim (Bool-cases (e.beq y x)) [
    | inl q ↦ rw q refl
    | inr q ↦ rw q (ap suc (length-without x ys (ground (arith, m, q))))
  ]

  contains-without : (x z : K) (ys : List K) → In ys z → e.beq x z ≡ false → In (without x ys) z
  unfolding without
  contains-without x z [] m q = cc m
  contains-without x z (y ∷ ys) m q =
      ground (arith, m, q, contains-without x z ys, e.beq_iff y x, e.beq_iff y z, e.beq_iff x z)

  -- No set that lies in another is longer.
  pub length-subset :
      (xs ys : List K) → IsDistinct xs → ((z : K) → In xs z → In ys z) → length xs ≤ length ys
  length-subset [] ys d h = omega arith
  length-subset (x ∷ xs) ys (new, d) h =
      let inside = h x (ground (arith, beq_refl e x)) in
      omega (
        arith,
        length-without x ys inside,
        length-subset xs (without x ys) d
            (λ z m. contains-without x z ys (h z (ground (arith, m))) (apart z m)),
      )
    where
      apart : (z : K) → In xs z → e.beq x z ≡ false
      apart z m = elim (Bool-cases (e.beq x z)) [
        | inl q ↦ cc (m, new, (e.beq_iff x z).0 q)
        | inr q ↦ q
      ]

  -- Each element of `xs` comes after what it depends on, which is in `pre` or before it in `xs`.
  abbrev pub Follows : (K → K → Type 0) → List K → List K → Type 0
  Follows Dep pre [] = Unit {0}
  Follows Dep pre (x ∷ xs) = ((t : K) → Dep x t → In pre t) × Follows Dep (pre ++ x ∷ []) xs

  module _ (Dep : K → K → Type 0) where
    pub Follows-more :
        (pre more xs : List K)
        → ((t : K) → In pre t → In more t)
        → Follows Dep pre xs
        → Follows Dep more xs
    Follows-more pre more [] inside h = tt
    Follows-more pre more (x ∷ xs) inside (h, hs) = (
      λ t d. inside t (h t d),
      Follows-more (pre ++ x ∷ []) (more ++ x ∷ []) xs
          (λ t i.
            ground
              (arith, contains-append t more (x ∷ []), contains-append t pre (x ∷ []), inside t, i))
          hs,
    )

    pub Follows-append :
        (pre xs ys : List K)
        → Follows Dep pre xs
        → Follows Dep (pre ++ xs) ys
        → Follows Dep pre (xs ++ ys)
    Follows-append pre [] ys h k = subst (λ l. Follows Dep l ys) (append-nil pre) k
    Follows-append pre (x ∷ xs) ys (h, hs) k = (
      h,
      Follows-append (pre ++ x ∷ []) xs ys hs
          (subst (λ l. Follows Dep l ys) (sym (append_assoc pre (x ∷ []) xs)) k),
    )

    -- What an element depends on is there too.
    pub Follows-closed :
        (pre xs : List K) → Follows Dep pre xs → (x t : K) → In xs x → Dep x t → In (pre ++ xs) t
    Follows-closed pre [] h x t m d = cc m
    Follows-closed pre (y ∷ xs) (h, hs) x t m d = elim (Bool-cases (e.beq y x)) [
      | inl q ↦ ground (
        arith,
        contains-append t pre (y ∷ xs),
        h t (subst (λ z. Dep z t) (sym ((e.beq_iff y x).0 q)) d),
      )
      | inr q ↦
          subst (λ l. In l t) (append_assoc pre (y ∷ []) xs)
            (Follows-closed (pre ++ y ∷ []) xs hs x t (ground (arith, m, q)) d)
    ]

    pub Follows-extend :
        (set pre xs : List K)
        → Follows Dep [] set
        → Follows Dep pre xs
        → ((t : K) → In pre t → In set t)
        → Follows Dep [] (extend set xs)
    unfolding extend
    Follows-extend set pre [] h k inside = h
    Follows-extend set pre (x ∷ xs) h (k, ks) inside = elim (Bool-cases (contains x set)) [
      | inl m ↦ rw m (Follows-extend set (pre ++ x ∷ []) xs h ks (λ t i. known m t i))
      | inr m ↦ rw m (
          Follows-extend (set ++ x ∷ []) (pre ++ x ∷ []) xs
            (Follows-append [] set (x ∷ []) h ((λ t d. inside t (k t d)), tt)) ks
            (λ t i.
              ground (
                arith,
                contains-append t set (x ∷ []),
                contains-append t pre (x ∷ []),
                inside t,
                i,
              )))
    ]
      where
        known : contains x set ≡ true → (t : K) → In (pre ++ x ∷ []) t → In set t
        known m t i = elim (Bool-cases (e.beq x t)) [
          | inl q ↦ subst (In set) ((e.beq_iff x t).0 q) m
          | inr q ↦ inside t (ground (arith, contains-append t pre (x ∷ []), i, q))
        ]
