-- ===== src/Merkle/Binding.antt =====
-- A root stands for one list of hashes of a given length, unless the hash function has a collision.
use xelis_blockchain.Prelude.{
  ℕ, zero, suc, ◌<◌, ◌≡◌, refl, sym, ap, ◌∙◌, ◌⊎◌, inl, inr, false, List, [], ◌∷◌, ◌++◌, arith, ltb,
  Bool-cases, length, All,
}
use xelis_blockchain.Prelude.Equality.{list_beq, list_beq_iff}
use xelis_blockchain.Merkle.{MerkleBuilder, pair_up, build_loop, build}
use xelis_blockchain.Merkle.Build.{one_round, no_round, pair_up-length, build-root}

module _ (hash : List ℕ → List ℕ) where
  -- Two inputs that differ and have the same hash.
  pub record Collision : Type 0 where
    pub first : List ℕ
    pub second : List ℕ
    pub different : list_beq first second ≡ false
    pub same_hash : hash first ≡ hash second

  abbrev pub IsHash : List ℕ → Type 0
  IsHash h = length h ≡ 32

  same_parts : (a b c d : List ℕ) → length a ≡ length c → a ++ b ≡ c ++ d → (a ≡ c) × (b ≡ d)
  same_parts [] b [] d h p = (refl, p)
  same_parts [] b (y ∷ c) d h p = elim (no_length (length c) h) [ ]
    where
      no_length : (n : ℕ) → zero ≡ suc n → 0 < 0
      no_length n h = omega (arith, h)
  same_parts (x ∷ a) b [] d h p = elim (no_length (length a) h) [ ]
    where
      no_length : (n : ℕ) → suc n ≡ zero → 0 < 0
      no_length n h = omega (arith, h)
  same_parts (x ∷ a) b (y ∷ c) d h p =
      let (q, r) = same_parts a b c d (omega (arith, h)) (cc p) in (cc (p, q), r)

  same_input : (a b : List ℕ) → hash a ≡ hash b → (a ≡ b) ⊎ Collision
  same_input a b h = elim (Bool-cases (list_beq a b)) [
    | inl p ↦ inl ((list_beq_iff a b).0 p)
    | inr p ↦ inr (record { first = a; second = b; different = p; same_hash = h })
  ]

  pair_up-binds :
      (xs ys : List (List ℕ))
      → length xs ≡ length ys
      → All IsHash xs
      → All IsHash ys
      → pair_up hash xs ≡ pair_up hash ys
      → (xs ≡ ys) ⊎ Collision
  unfolding pair_up
  pair_up-binds [] [] h f g p = inl refl
  pair_up-binds (a ∷ []) (c ∷ []) h (f, _) (g, _) p = elim (same_input (a ++ a) (c ++ c) (cc p)) [
    | inl q ↦ inl (ap (λ t. t ∷ []) (same_parts a a c c (f ∙ sym g) q).0)
    | inr q ↦ inr q
  ]
  pair_up-binds (a ∷ b ∷ xs) (c ∷ d ∷ ys) h (f, (f', fs)) (g, (g', gs)) p =
      elim (same_input (a ++ b) (c ++ d) (cc p)) [
        | inl q ↦ elim (pair_up-binds xs ys (omega (arith, h)) fs gs (cc p)) [
          | inl r ↦
              inl
                (cc ((same_parts a b c d (f ∙ sym g) q).0, (same_parts a b c d (f ∙ sym g) q).1, r))
          | inr r ↦ inr r
        ]
        | inr q ↦ inr q
      ]
  pair_up-binds [] (c ∷ ys) h f g p = ground (arith, h)
  pair_up-binds (a ∷ xs) [] h f g p = ground (arith, h)
  pair_up-binds (a ∷ []) (c ∷ d ∷ ys) h f g p = ground (arith, h)
  pair_up-binds (a ∷ b ∷ xs) (c ∷ []) h f g p = ground (arith, h)

  module _ (hash-size : (bytes : List ℕ) → IsHash (hash bytes)) where
    pair_up-IsHash : (xs : List (List ℕ)) → All IsHash (pair_up hash xs)
    unfolding pair_up
    pair_up-IsHash [] = tt
    pair_up-IsHash (a ∷ []) = (hash-size (a ++ a), tt)
    pair_up-IsHash (a ∷ b ∷ xs) = (hash-size (a ++ b), pair_up-IsHash xs)

    build_loop-binds :
        (n : ℕ) (xs ys : List (List ℕ))
        → length xs ≡ length ys
        → All IsHash xs
        → All IsHash ys
        → build_loop hash n xs ≡ build_loop hash n ys
        → (xs ≡ ys) ⊎ Collision
    unfolding build_loop
    build_loop-binds zero xs ys h f g p = inl p
    build_loop-binds (suc n) xs ys h f g p = elim (Bool-cases (ltb 1 (length xs))) [
      | inl q ↦
          elim (build_loop-binds n (pair_up hash xs) (pair_up hash ys)
            (omega (arith, h, pair_up-length hash xs, pair_up-length hash ys)) (pair_up-IsHash xs)
            (pair_up-IsHash ys)
            (sym (one_round hash n xs (ground (arith, q)))
              ∙ p
              ∙ one_round hash n ys (ground (arith, q, h)))) [
                | inl r ↦ pair_up-binds xs ys h f g r
                | inr r ↦ inr r
              ]
      | inr q ↦ inl (
          sym (no_round hash n xs (ground (arith, q)))
          ∙ p
          ∙ no_round hash n ys (ground (arith, q, h)))
    ]

    -- If the hash function gives 32 bytes, two builders with as many hashes of 32 bytes, at least one, have the same root only where they have the same hashes in the same order, or else there are two inputs with the same hash.
    pub build-binds :
        (b c : MerkleBuilder)
        → length b.hashes ≡ length c.hashes
        → 0 < length b.hashes
        → All IsHash b.hashes
        → All IsHash c.hashes
        → (build hash b).1 ≡ (build hash c).1
        → (b.hashes ≡ c.hashes) ⊎ Collision
    build-binds b c h k f g p =
        let (r, e, m) = build-root hash b k in
        let (r', e', m') = build-root hash c (omega (arith, h, k)) in
        build_loop-binds (length b.hashes) b.hashes c.hashes h f g (
          e
          ∙ cc (sym (ap (λ t. t.1) m) ∙ p ∙ ap (λ t. t.1) m')
          ∙ sym e'
          ∙ ap (λ n. build_loop hash n c.hashes) (sym h))
