-- ===== src/Merkle/Build.antt =====
-- The build ends with a root, and what it does not distinguish.
use xelis_blockchain.Prelude.{
  ℕ, zero, suc, ◌+◌, ◌*◌, ◌≤◌, ◌<◌, ◌≡◌, refl, sym, ap, ◌∙◌, inl, inr, some, List, [], ◌∷◌, ◌++◌,
  arith, ltb, Bool-cases, length, length-append,
}
use xelis_blockchain.Merkle.{MerkleBuilder, pair_up, build_loop, build, remove_first}

module _ (hash : List ℕ → List ℕ) where
  -- A round halves the number of hashes, rounded up.
  pub pair_up-length :
      (hs : List (List ℕ))
      → (length hs ≤ 2 * length (pair_up hash hs)) × (2 * length (pair_up hash hs) ≤ length hs + 1)
  unfolding pair_up
  pair_up-length [] = omega arith
  pair_up-length (x ∷ []) = omega arith
  pair_up-length (x ∷ y ∷ rest) = omega (arith, pair_up-length rest)

  pub one_round :
      (n : ℕ) (hs : List (List ℕ))
      → 1 < length hs
      → build_loop hash (suc n) hs ≡ build_loop hash n (pair_up hash hs)
  unfolding build_loop
  one_round n hs h = ground (arith, h)

  pub no_round : (n : ℕ) (hs : List (List ℕ)) → length hs ≤ 1 → build_loop hash (suc n) hs ≡ hs
  unfolding build_loop
  no_round n hs h = ground (arith, h)

  -- More rounds than hashes change nothing.
  enough :
      (n : ℕ) (hs : List (List ℕ))
      → length hs ≤ n
      → build_loop hash (suc n) hs ≡ build_loop hash n hs
  unfolding build_loop
  enough zero hs h = no_round zero hs (omega (arith, h))
  enough (suc n) hs h = elim (Bool-cases (ltb 1 (length hs))) [
    | inl p ↦
        one_round (suc n) hs (ground (arith, p))
        ∙ enough n (pair_up hash hs) (ground (arith, pair_up-length hs, p, h))
        ∙ sym (one_round n hs (ground (arith, p)))
    | inr p ↦ no_round (suc n) hs (ground (arith, p)) ∙ sym (no_round n hs (ground (arith, p)))
  ]

  one_left :
      (n : ℕ) (hs : List (List ℕ))
      → length hs ≤ n
      → 0 < length hs
      → length (build_loop hash n hs) ≡ 1
  one_left zero hs h k = omega (arith, h, k)
  one_left (suc n) hs h k = elim (Bool-cases (ltb 1 (length hs))) [
    | inl p ↦ rw (one_round n hs (ground (arith, p))) (
        one_left n (pair_up hash hs) (ground (arith, pair_up-length hs, p, h))
          (ground (arith, pair_up-length hs, p)))
    | inr p ↦ rw (no_round n hs (ground (arith, p))) (ground (arith, p, k))
  ]

  single_root : (hs : List (List ℕ)) → length hs ≡ 1 → (root : List ℕ) × (hs ≡ root ∷ [])
  single_root [] h = ground (arith, h)
  single_root (x ∷ []) h = (x, refl)
  single_root (x ∷ y ∷ rest) h = ground (arith, h)

  -- The build of one or more hashes ends after at most as many rounds as there are hashes, with one hash as the root, and leaves the builder empty.
  pub build-root :
      (b : MerkleBuilder)
      → 0 < length b.hashes
      → (root : List ℕ) × (build_loop hash (length b.hashes) b.hashes ≡ root ∷ [])
        × (build hash b ≡ (record { hashes = [] }, some root))
  unfolding build remove_first
  build-root b h =
      let (root, e) = single_root _ (one_left (length b.hashes) b.hashes (omega arith) h) in
      (root, e, rw e refl)

  one_odd : (k : ℕ) → suc zero ≡ 2 * k → 0 < 0
  one_odd k h = omega (arith, h)

  two_zero : (n : ℕ) → suc (suc n) ≡ 2 * zero → 0 < 0
  two_zero n h = omega (arith, h)

  pair_up-append :
      (k : ℕ) (pre ys : List (List ℕ))
      → length pre ≡ 2 * k
      → pair_up hash (pre ++ ys) ≡ pair_up hash pre ++ pair_up hash ys
  unfolding pair_up
  pair_up-append zero [] ys h = refl
  pair_up-append (suc k) [] ys h = refl
  pair_up-append k (x ∷ []) ys h = elim (one_odd k h) [ ]
  pair_up-append zero (x ∷ y ∷ pre) ys h = elim (two_zero (length pre) h) [ ]
  pair_up-append (suc k) (x ∷ y ∷ pre) ys h =
      ap (λ t. hash (x ++ y) ∷ t) (pair_up-append k pre ys (omega (arith, h)))

  duplicate_pairs :
      (k : ℕ) (pre : List (List ℕ)) (x : List ℕ)
      → length pre ≡ 2 * k
      → pair_up hash (pre ++ x ∷ []) ≡ pair_up hash (pre ++ x ∷ x ∷ [])
  unfolding pair_up
  duplicate_pairs k pre x h =
      pair_up-append k pre (x ∷ []) h ∙ sym (pair_up-append k pre (x ∷ x ∷ []) h)

  -- An odd number of three or more hashes has the same root as the list in which the last hash stands twice.
  pub build-duplicate :
      (k : ℕ) (pre : List (List ℕ)) (x : List ℕ)
      → length pre ≡ 2 * (k + 1)
      → build hash (record { hashes = pre ++ x ∷ [] })
        ≡ build hash (record { hashes = pre ++ x ∷ x ∷ [] })
  unfolding build
  build-duplicate k pre x h = ap (remove_first hash) (
      ap (λ n. build_loop hash n (pre ++ x ∷ [])) length_one
      ∙ one_round (length pre) (pre ++ x ∷ []) (omega (arith, length_one, h))
      ∙ sym (
          enough (length pre) (pair_up hash (pre ++ x ∷ []))
            (omega (arith, length_one, h, pair_up-length (pre ++ x ∷ []))))
      ∙ ap (build_loop hash (suc (length pre))) (duplicate_pairs (k + 1) pre x h)
      ∙ sym (one_round (suc (length pre)) (pre ++ x ∷ x ∷ []) (omega (arith, length_two, h)))
      ∙ ap (λ n. build_loop hash n (pre ++ x ∷ x ∷ [])) (sym length_two))
    where
      length_one : length (pre ++ x ∷ []) ≡ suc (length pre)
      length_one = omega (arith, length-append pre (x ∷ []))

      length_two : length (pre ++ x ∷ x ∷ []) ≡ suc (suc (length pre))
      length_two = omega (arith, length-append pre (x ∷ x ∷ []))
