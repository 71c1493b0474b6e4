-- ===== src/Dag/TipBase/Lowest.antt =====
-- The last of the sorted bases is one of the lowest.
use xelis_blockchain.Prelude.Results.{some_injective}
use xelis_blockchain.Prelude.{
  ℕ, ◌≤◌, ◌≡◌, refl, ap, ◌∙◌, subst, inl, inr, Bool, some, List, [], ◌∷◌, arith, ltb, Bool-cases,
  All,
}
use xelis_blockchain.BlockDag.{insert_by, sort_by}
use xelis_blockchain.Dag.TipBase.{Base, sort_bases, last}

module _ {K : Type 0} where
  abbrev higher : Base K → Base K → Bool
  higher a b = ltb b.1 a.1

  abbrev Descending : List (Base K) → Type 0
  Descending [] = Unit {0}
  Descending (x ∷ xs) = All (λ y. y.1 ≤ x.1) xs × Descending xs

  insert-All :
      (P : Base K → Type 0) (x : Base K) (ys : List (Base K))
      → P x
      → All P ys
      → All P (insert_by higher x ys)
  unfolding insert_by
  insert-All P x [] h k = (h, tt)
  insert-All P x (y ∷ ys) h (k, ks) = elim (Bool-cases (higher y x)) [
    | inl q ↦ rw q (k, insert-All P x ys h ks)
    | inr q ↦ rw q (h, (k, ks))
  ]

  All-insert :
      (P : Base K → Type 0) (x : Base K) (ys : List (Base K))
      → All P (insert_by higher x ys)
      → P x × All P ys
  unfolding insert_by
  All-insert P x [] h = h
  All-insert P x (y ∷ ys) h = elim (Bool-cases (higher y x)) [
    | inl q ↦
        let (k, ks) = rw (q, insert_by) at h in let (m, ms) = All-insert P x ys ks in (m, (k, ms))
    | inr q ↦ rw (q, insert_by) at h
  ]

  lower_all : (n m : ℕ) (ys : List (Base K)) → n ≤ m → All (λ y. y.1 ≤ n) ys → All (λ y. y.1 ≤ m) ys
  lower_all n m [] l h = tt
  lower_all n m (y ∷ ys) l (h, hs) = (omega (arith, l, h), lower_all n m ys l hs)

  insert-Descending :
      (x : Base K) (ys : List (Base K)) → Descending ys → Descending (insert_by higher x ys)
  unfolding insert_by
  insert-Descending x [] h = (tt, tt)
  insert-Descending x (y ∷ ys) (h, hs) = elim (Bool-cases (higher y x)) [
    | inl q ↦
        rw q (insert-All (λ z. z.1 ≤ y.1) x ys (ground (arith, q)) h, insert-Descending x ys hs)
    | inr q ↦ rw q ((ground (arith, q), lower_all y.1 x.1 ys (ground (arith, q)) h), (h, hs))
  ]

  sort-Descending : (ys : List (Base K)) → Descending (sort_by higher ys)
  unfolding sort_by
  sort-Descending [] = tt
  sort-Descending (y ∷ ys) = insert-Descending y (sort_by higher ys) (sort-Descending ys)

  sort-All : (P : Base K → Type 0) (ys : List (Base K)) → All P ys → All P (sort_by higher ys)
  unfolding sort_by
  sort-All P [] h = tt
  sort-All P (y ∷ ys) (h, hs) = insert-All P y (sort_by higher ys) h (sort-All P ys hs)

  All-sort : (P : Base K → Type 0) (ys : List (Base K)) → All P (sort_by higher ys) → All P ys
  unfolding sort_by
  All-sort P [] h = tt
  All-sort P (y ∷ ys) h =
      let (k, ks) = All-insert P y (sort_by higher ys) h in (k, All-sort P ys ks)

  last-All :
      (P : Base K → Type 0) (ys : List (Base K)) (b : Base K) → last ys ≡ some b → All P ys → P b
  unfolding last
  last-All P [] b q h = cc q
  last-All P (y ∷ []) b q (h, hs) = subst P (some_injective q) h
  last-All P (y ∷ z ∷ ys) b q (h, hs) = last-All P (z ∷ ys) b q hs

  last-lowest :
      (ys : List (Base K)) (b : Base K) → last ys ≡ some b → Descending ys → All (λ y. b.1 ≤ y.1) ys
  unfolding last
  last-lowest [] b q h = tt
  last-lowest (y ∷ []) b q h = (subst (λ z. z.1 ≤ y.1) (some_injective q) (omega arith), tt)
  last-lowest (y ∷ z ∷ ys) b q (h, hs) =
      (last-All (λ k. k.1 ≤ y.1) (z ∷ ys) b q h, last-lowest (z ∷ ys) b q hs)

  pub last-sort_bases :
      (P : Base K → Type 0) (ys : List (Base K)) (b : Base K)
      → last (sort_bases ys) ≡ some b
      → All P ys
      → P b × All (λ y. b.1 ≤ y.1) ys
  unfolding sort_bases
  last-sort_bases P ys b q h = (
    last-All P (sort_by higher ys) b q (sort-All P ys h),
    All-sort (λ y. b.1 ≤ y.1) ys (last-lowest (sort_by higher ys) b q (sort-Descending ys)),
  )

  last-some : (y : Base K) (ys : List (Base K)) → (b : Base K) × (last (y ∷ ys) ≡ some b)
  unfolding last
  last-some y [] = (y, refl)
  last-some y (z ∷ ys) = last-some z ys

  insert_some :
      (x : Base K) (ys : List (Base K))
      → (z : Base K) × (zs : List (Base K)) × (insert_by higher x ys ≡ z ∷ zs)
  unfolding insert_by
  insert_some x [] = (x, [], refl)
  insert_some x (y ∷ ys) = elim (Bool-cases (higher y x)) [
    | inl q ↦ (y, insert_by higher x ys, rw q refl)
    | inr q ↦ (x, y ∷ ys, rw q refl)
  ]

  -- There is a lowest base, if there is any.
  pub sort_bases-some :
      (y : Base K) (ys : List (Base K)) → (b : Base K) × (last (sort_bases (y ∷ ys)) ≡ some b)
  unfolding sort_bases sort_by
  sort_bases-some y ys =
      let (z, zs, q) = insert_some y (sort_by higher ys) in
      let (b, k) = last-some z zs in (b, ap last q ∙ k)
