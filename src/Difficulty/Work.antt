-- ===== src/Difficulty/Work.antt =====
-- Which hashes a difficulty accepts.
use xelis_blockchain.Prelude.{
  ℕ, ◌-◌, ◌*◌, ◌/◌, ◌≤◌, ◌<◌, ◌≡◌, refl, ◌↔◌, inl, inr, Bool, true, List, arith, leb, ◌==◌,
  Bool-cases, le→leb,
}
use xelis_blockchain.Prelude.Results.{ok}
use xelis_blockchain.Difficulty.{
  Operators, u256_mod, compute_difficulty_target, check_difficulty_against_target, check_difficulty,
  or_stopped,
}
use native.Mathlib.Nat.{le-div_iff_mul-le}

module _ (u : Operators) where
  target_lem : (d : ℕ) → 0 < d → compute_difficulty_target u d ≡ ok ((u256_mod - 1) / d)
  unfolding compute_difficulty_target or_stopped
  target_lem d h = elim (Bool-cases (d == 0)) [
    | inl q ↦ absurd (ground (arith, q, h))
    | inr q ↦ rw (q, compute_difficulty_target) (rw (u.div_fits (u256_mod - 1) d h) refl)
  ]

  -- For a difficulty above 0 the check gives an answer, which is that the number of the hash times the
  -- difficulty is below 2 ^ 256.
  pub check_difficulty-fits :
      (hash : List ℕ) (d : ℕ)
      → 0 < d
      → (accepts : Bool) × (check_difficulty u hash d ≡ ok accepts)
        × ((accepts ≡ true) ↔ (u.from_big_endian hash * d < u256_mod))
  unfolding check_difficulty check_difficulty_against_target
  check_difficulty-fits hash d h = (
    leb (u.from_big_endian hash) ((u256_mod - 1) / d),
    rw (target_lem d h) refl,
    fits (u.from_big_endian hash),
  )
    where
      fits : (n : ℕ) → (leb n ((u256_mod - 1) / d) ≡ true) ↔ (n * d < u256_mod)
      fits n =
          let bound : (n ≤ (u256_mod - 1) / d) ↔ (n * d ≤ u256_mod - 1) = le-div_iff_mul-le h in
          (
            λ q. omega (arith, bound.0 (ground (arith, q))),
            λ l. le→leb n ((u256_mod - 1) / d) (bound.1 (omega (arith, l))),
          )
