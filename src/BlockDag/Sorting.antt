-- ===== src/BlockDag/Sorting.antt =====
-- A sort by a strict total order does not depend on the order of what it sorts.
use xelis_blockchain.Prelude.{
  ◌≡◌, refl, sym, ap, ◌∙◌, inl, inr, Bool, true, false, List, [], ◌∷◌, Bool-cases, All,
}
use mathlib.Core.List.{Permᴰ}
use xelis_blockchain.BlockDag.{insert_by, sort_by}
use xelis_blockchain.BlockDag.Order.{IsOrder}

module _ {A : Type 0} (before : A → A → Bool) (law : IsOrder before) where
  insert_hit :
      (x y : A) (rest : List A)
      → before y x ≡ true
      → insert_by before x (y ∷ rest) ≡ y ∷ insert_by before x rest
  unfolding insert_by
  insert_hit x y rest p = rw p refl

  insert_miss :
      (x y : A) (rest : List A) → before y x ≡ false → insert_by before x (y ∷ rest) ≡ x ∷ y ∷ rest
  unfolding insert_by
  insert_miss x y rest p = rw p refl

  -- Two elements in front of a list that neither passes.
  front :
      (x y : A) (rest : List A)
      → insert_by before x rest ≡ x ∷ rest
      → insert_by before y rest ≡ y ∷ rest
      → insert_by before x (y ∷ rest) ≡ insert_by before y (x ∷ rest)
  front x y rest p q = elim (Bool-cases (before y x)) [
    | inl h ↦
        insert_hit x y rest h ∙ ap (λ t. y ∷ t) p ∙ sym (insert_miss y x rest (law.asym y x h))
    | inr h ↦ elim (Bool-cases (before x y)) [
      | inl k ↦ insert_miss x y rest h ∙ ap (λ t. x ∷ t) (sym q) ∙ sym (insert_hit y x rest k)
      | inr k ↦ rw (law.total x y k h) refl
    ]
  ]

  -- `y` is in front of `z`, and `z` in front of `x`.
  between :
      (x y z : A) (rest : List A)
      → before z x ≡ true
      → before z y ≡ false
      → insert_by before x (insert_by before y (z ∷ rest))
        ≡ insert_by before y (insert_by before x (z ∷ rest))
  between x y z rest p q =
      ap (insert_by before x) (insert_miss y z rest q)
      ∙ insert_hit x y (z ∷ rest) (law.cotrans x y z p q)
      ∙ ap (λ t. y ∷ t) (insert_hit x z rest p)
      ∙ sym (insert_miss y z (insert_by before x rest) q)
      ∙ ap (insert_by before y) (sym (insert_hit x z rest p))

  insert-insert :
      (x y : A) (rest : List A)
      → insert_by before x (insert_by before y rest) ≡ insert_by before y (insert_by before x rest)
  unfolding insert_by
  insert-insert x y [] = front x y [] refl refl
  insert-insert x y (z ∷ rest) = elim (Bool-cases (before z x)) [
    | inl p ↦ elim (Bool-cases (before z y)) [
      | inl q ↦
          ap (insert_by before x) (insert_hit y z rest q)
          ∙ insert_hit x z _ p
          ∙ ap (λ t. z ∷ t) (insert-insert x y rest)
          ∙ sym (insert_hit y z _ q)
          ∙ ap (insert_by before y) (sym (insert_hit x z rest p))
      | inr q ↦ between x y z rest p q
    ]
    | inr p ↦ elim (Bool-cases (before z y)) [
      | inl q ↦ sym (between y x z rest q p)
      | inr q ↦
          ap (insert_by before x) (insert_miss y z rest q)
          ∙ front x y (z ∷ rest) (insert_miss x z rest p) (insert_miss y z rest q)
          ∙ ap (insert_by before y) (sym (insert_miss x z rest p))
    ]
  ]

  pub sort_by_order_free : {xs ys : List A} → Permᴰ xs ys → sort_by before xs ≡ sort_by before ys
  unfolding sort_by
  sort_by_order_free Permᴰ.nil = refl
  sort_by_order_free (Permᴰ.cons {a = a} {b = b} {l₂ = ys} p d) =
      ap (insert_by before a) (sort_by_order_free d)
      ∙ ap (λ t. insert_by before t (sort_by before ys)) p
  sort_by_order_free (Permᴰ.swap {a = a} {b = b} {a' = a'} {l = l} p q) =
      insert-insert a b (sort_by before l)
      ∙ ap (λ t. insert_by before t (insert_by before a (sort_by before l))) q
      ∙ ap (λ t. insert_by before a' (insert_by before t (sort_by before l))) p
  sort_by_order_free (Permᴰ.trans d d') = sort_by_order_free d ∙ sort_by_order_free d'

  -- No element comes before the one in front of it.
  unfoldable pub IsSorted : List A → Type 0
  IsSorted [] = Unit {0}
  IsSorted (x ∷ rest) = All (λ y. before y x ≡ false) rest × IsSorted rest

  irrefl : (x : A) → before x x ≡ false
  irrefl x = elim (Bool-cases (before x x)) [ inl p ↦ law.asym x x p | inr p ↦ p ]

  -- What does not come before `y` does not come before `x`, which does not come after `y`.
  behind :
      (x y : A) (rest : List A)
      → before y x ≡ false
      → All (λ z. before z y ≡ false) rest
      → All (λ z. before z x ≡ false) rest
  behind x y [] p h = tt
  behind x y (z ∷ rest) p (h, hs) = (
    elim (Bool-cases (before z x)) [ inl q ↦ cc (law.cotrans x y z q h, p) | inr q ↦ q ],
    behind x y rest p hs,
  )

  insert-All :
      (P : A → Type 0) (x : A) (rest : List A) → P x → All P rest → All P (insert_by before x rest)
  unfolding insert_by
  insert-All P x [] h k = (h, tt)
  insert-All P x (y ∷ rest) h (k, ks) = elim (Bool-cases (before y x)) [
    | inl p ↦ rw p (k, insert-All P x rest h ks)
    | inr p ↦ rw p (h, (k, ks))
  ]

  insert-IsSorted : (x : A) (rest : List A) → IsSorted rest → IsSorted (insert_by before x rest)
  unfolding insert_by IsSorted
  insert-IsSorted x [] h = (tt, tt)
  insert-IsSorted x (y ∷ rest) (h, hs) = elim (Bool-cases (before y x)) [
    | inl p ↦
        rw p (
          insert-All (λ z. before z y ≡ false) x rest (law.asym y x p) h,
          insert-IsSorted x rest hs,
        )
    | inr p ↦ rw p ((p, behind x y rest p h), (h, hs))
  ]

  pub sort_by-IsSorted : (xs : List A) → IsSorted (sort_by before xs)
  unfolding sort_by IsSorted
  sort_by-IsSorted [] = tt
  sort_by-IsSorted (x ∷ rest) = insert-IsSorted x (sort_by before rest) (sort_by-IsSorted rest)

same_list : {A : Type 0} (xs : List A) → Permᴰ xs xs
same_list [] = Permᴰ.nil
same_list (x ∷ xs) = Permᴰ.cons refl (same_list xs)

insert_by_shuffles :
    {A : Type 0} (before : A → A → Bool) (x : A) (rest : List A)
    → Permᴰ (x ∷ rest) (insert_by before x rest)
unfolding insert_by
insert_by_shuffles before x [] = same_list (x ∷ [])
insert_by_shuffles before x (y ∷ rest) = elim (Bool-cases (before y x)) [
  | inl p ↦
      rw p (Permᴰ.trans (Permᴰ.swap refl refl) (Permᴰ.cons refl (insert_by_shuffles before x rest)))
  | inr p ↦ rw p (same_list (x ∷ y ∷ rest))
]

pub sort_by_shuffles :
    {A : Type 0} (before : A → A → Bool) (xs : List A) → Permᴰ xs (sort_by before xs)
unfolding sort_by
sort_by_shuffles before [] = Permᴰ.nil
sort_by_shuffles before (x ∷ rest) =
    Permᴰ.trans (Permᴰ.cons refl (sort_by_shuffles before rest))
      (insert_by_shuffles before x (sort_by before rest))
