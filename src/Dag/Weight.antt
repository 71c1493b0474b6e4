-- ===== src/Dag/Weight.antt =====
-- A bound for the rounds of a search that pops a block from its stack and pushes some of its tips.
use xelis_blockchain.Prelude.{
  ℕ, zero, suc, ◌+◌, ◌*◌, ◌≤◌, ◌<◌, ◌≡◌, List, [], ◌∷◌, ◌++◌, arith, length,
}
use xelis_blockchain.Prelude.Equality.{Eq, beq_refl}
use xelis_blockchain.Dag.Compare.{In}

-- The rounds for a block at a height, where none has more than `most` tips.
unfoldable pub weight : ℕ → ℕ → ℕ
weight most zero = 1
weight most (suc k) = 1 + most * weight most k

weight_mono : (most j k : ℕ) → j ≤ k → weight most j ≤ weight most k
unfolding weight
weight_mono most zero zero l = omega arith
weight_mono most zero (suc k) l = omega arith
weight_mono most (suc j) zero l = absurd (omega (arith, l))
weight_mono most (suc j) (suc k) l = grind (arith, weight_mono most j k (omega (arith, l)))

pub weight_some : (most k : ℕ) → 1 ≤ weight most k
unfolding weight
weight_some most zero = omega arith
weight_some most (suc k) = omega arith

module _ {K : Type 0} ⦃e : Eq K⦄ (most : ℕ) (height : K → ℕ) where
  -- The rounds for all blocks of a stack.
  pub load : List K → ℕ
  load [] = 0
  load (x ∷ xs) = weight most (height x) + load xs

  pub load-append : (xs ys : List K) → load (xs ++ ys) ≡ load xs + load ys
  unfolding load
  load-append [] ys = omega arith
  load-append (x ∷ xs) ys = omega (arith, load-append xs ys)

  load_bound :
      (k : ℕ) (xs : List K)
      → ((y : K) → In xs y → height y ≤ k)
      → load xs ≤ length xs * weight most k
  unfolding load
  load_bound k [] h = omega arith
  load_bound k (x ∷ xs) h = grind (
    arith,
    weight_mono most (height x) k (h x (ground (arith, beq_refl e x))),
    load_bound k xs (λ y m. h y (ground (arith, m))),
  )

  load_below :
      (k : ℕ) (xs : List K)
      → ((y : K) → In xs y → height y < k)
      → length xs ≤ most
      → load xs < weight most k
  unfolding weight load
  load_below zero [] h l = omega arith
  load_below zero (x ∷ xs) h l = absurd (omega (arith, h x (ground (arith, beq_refl e x))))
  load_below (suc k) xs h l = grind (arith, load_bound k xs (λ y m. omega (arith, h y m)), l)

  -- A block is worth more than those that are pushed for it.
  pub load_push :
      (x : K) (top stack : List K)
      → ((y : K) → In top y → height y < height x)
      → length top ≤ most
      → load (top ++ stack) < load (x ∷ stack)
  unfolding load
  load_push x top stack h l = omega (arith, load-append top stack, load_below (height x) top h l)

  -- A stack that is not empty needs a round.
  pub load_some : (x : K) (xs : List K) → 1 ≤ load (x ∷ xs)
  unfolding load
  load_some x xs = omega (arith, weight_some most (height x))

  pub load-one : (x : K) → load (x ∷ []) ≡ weight most (height x)
  unfolding load
  load-one x = omega arith
