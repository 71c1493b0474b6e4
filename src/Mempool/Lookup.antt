-- ===== src/Mempool/Lookup.antt =====
-- Lookups in the maps of the mempool after an insertion or a removal.
use xelis_blockchain.Prelude.{
  ◌≡◌, refl, subst, inl, inr, none, some, List, [], ◌∷◌, arith, Bool-cases, All, if◌then◌else◌, sym,
  ap, ◌∙◌, false, true, map, false, true, map, ap, ◌∙◌,
}
use xelis_blockchain.Prelude.Equality.{Eq, beq_refl, contains, IsDistinct}
use xelis_blockchain.Mempool.{find, put, erase}

module _ {K : Type 0} ⦃e : Eq K⦄ where
  pub beq_sym : (x y : K) → e.beq x y ≡ false → e.beq y x ≡ false
  beq_sym x y p = elim (Bool-cases (e.beq y x)) [
    | inl q ↦ cc (p, beq_refl e x, (e.beq_iff y x).0 q)
    | inr q ↦ q
  ]

  same_answer : (x y z : K) → e.beq x y ≡ true → e.beq x z ≡ e.beq y z
  same_answer x y z p = ap (λ t. e.beq t z) ((e.beq_iff x y).0 p)

module _ {K V : Type 0} ⦃e : Eq K⦄ where
  pub find-put : (key : K) (v : V) (m : List (K × V)) → find key (put key v m) ≡ some v
  unfolding find put
  find-put key v [] = rw (beq_refl e key) refl
  find-put key v ((k, w) ∷ rest) = elim (Bool-cases (e.beq k key)) [
    | inl p ↦ rw p (rw p refl)
    | inr p ↦ rw p (rw p (find-put key v rest))
  ]

  -- An insertion under a key that is not there keeps what is found.
  pub find-put_fresh :
      (key new : K) (v w : V) (m : List (K × V))
      → find new m ≡ none
      → find key m ≡ some w
      → find key (put new v m) ≡ some w
  unfolding find put
  find-put_fresh key new v w [] f h = cc
  find-put_fresh key new v w ((k, x) ∷ rest) f h = elim (Bool-cases (e.beq k new)) [
    | inl p ↦ ground (arith, p, f, h)
    | inr p ↦ elim (Bool-cases (e.beq k key)) [
      | inl q ↦ ground (arith, p, q, f, h)
      | inr q ↦ ground (arith, p, q, f, h, find-put_fresh key new v w rest)
    ]
  ]

  -- What holds of all values holds of the one that is found, and after an insertion of one that has it.
  pub find-All :
      (P : V → Type 0) (key : K) (m : List (K × V)) (v : V)
      → All (λ x. P x.1) m
      → find key m ≡ some v
      → P v
  unfolding find
  find-All P key [] v h p = cc
  find-All P key ((k, w) ∷ rest) v (h, hs) p = elim (Bool-cases (e.beq k key)) [
    | inl q ↦ subst P (ground (arith, q, p)) h
    | inr q ↦ find-All P key rest v hs (ground (arith, q, p))
  ]

  pub put-All :
      (P : V → Type 0) (key : K) (v : V) (m : List (K × V))
      → All (λ x. P x.1) m
      → P v
      → All (λ x. P x.1) (put key v m)
  unfolding put
  put-All P key v [] h p = (p, tt)
  put-All P key v ((k, w) ∷ rest) (h, hs) p = elim (Bool-cases (e.beq k key)) [
    | inl q ↦ rw q (p, hs)
    | inr q ↦ rw q (h, put-All P key v rest hs p)
  ]

  -- The keys of a map.
  abbrev pub keys : List (K × V) → List K
  keys m = map (λ x. x.0) m

  find_hit :
      (k key : K) (v : V) (m : List (K × V)) → e.beq k key ≡ true → find key ((k, v) ∷ m) ≡ some v
  unfolding find
  find_hit k key v m p = rw p refl

  find_skip :
      (k key : K) (v : V) (m : List (K × V))
      → e.beq k key ≡ false
      → find key ((k, v) ∷ m) ≡ find key m
  unfolding find
  find_skip k key v m p = rw p refl

  find_absent : (key : K) (m : List (K × V)) → contains key (keys m) ≡ false → find key m ≡ none
  unfolding find
  find_absent key [] p = refl
  find_absent key ((k, v) ∷ m) p =
      find_skip k key v m (ground (arith, p)) ∙ find_absent key m (ground (arith, p))

  -- What is found after a key is erased, or put.
  pub find-erase :
      (key other : K) (m : List (K × V))
      → IsDistinct (keys m)
      → find other (erase key m) ≡ (if e.beq key other then none else find other m)
  unfolding find erase
  find-erase key other [] d = elim (Bool-cases (e.beq key other)) [
    | inl p ↦ rw p refl
    | inr p ↦ rw p refl
  ]
  find-erase key other ((k, v) ∷ m) (d, ds) = elim (Bool-cases (e.beq k key)) [
    | inl p ↦ rw p (elim (Bool-cases (e.beq key other)) [
      | inl q ↦ rw q (
          find_absent other m (
            subst (λ t. contains t (keys m) ≡ false)
              ((e.beq_iff k key).0 p ∙ (e.beq_iff key other).0 q) d))
      | inr q ↦ rw q (sym (find_skip k other v m (same_answer k key other p ∙ q)))
    ])
    | inr p ↦ rw p (elim (Bool-cases (e.beq k other)) [
      | inl q ↦ rw q (rw (apart p q) refl)
      | inr q ↦ rw q (find-erase key other m ds)
    ])
  ]
    where
      apart : e.beq k key ≡ false → e.beq k other ≡ true → e.beq key other ≡ false
      apart p q = beq_sym other key (sym (same_answer k other key q) ∙ p)

  pub find-put_at :
      (key other : K) (w : V) (m : List (K × V))
      → find other (put key w m) ≡ (if e.beq key other then some w else find other m)
  unfolding find put
  find-put_at key other w [] = refl
  find-put_at key other w ((k, v) ∷ m) = elim (Bool-cases (e.beq k key)) [
    | inl p ↦ rw p (elim (Bool-cases (e.beq key other)) [
      | inl q ↦ rw q (find_hit k other w m (same_answer k key other p ∙ q))
      | inr q ↦ rw q (
          find_skip k other w m (same_answer k key other p ∙ q)
          ∙ sym (find_skip k other v m (same_answer k key other p ∙ q)))
    ])
    | inr p ↦ rw p (elim (Bool-cases (e.beq k other)) [
      | inl q ↦ rw q (rw (apart p q) refl)
      | inr q ↦ rw q (find-put_at key other w m)
    ])
  ]
    where
      apart : e.beq k key ≡ false → e.beq k other ≡ true → e.beq key other ≡ false
      apart p q = beq_sym other key (sym (same_answer k other key q) ∙ p)
