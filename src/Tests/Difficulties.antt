-- ===== src/Tests/Difficulties.antt =====
-- The difficulty of the next block and the check of a hash at concrete inputs.
use xelis_blockchain.Prelude.{
  ℕ, ◌+◌, ◌-◌, ◌*◌, ◌/◌, ◌%◌, ◌^◌, ◌≤◌, ◌<◌, ◌≡◌, refl, ◌↔◌, inl, inr, Bool, true, List, [], ◌∷◌,
  arith, ltb, leb, if◌then◌else◌, Bool-cases,
}
use xelis_blockchain.Prelude.Results.{ok, err}
use xelis_blockchain.Difficulty.{
  panic, Num, u256_mod, Operators, solve_time_of, kalman_filter, update_estimate,
  calculate_difficulty, check_difficulty, difficulty_cannot_be_zero, initial_covariance,
  compute_difficulty_target,
}
use xelis_blockchain.Difficulty.Filter.{IsNext, calculate_difficulty-IsNext}
use xelis_blockchain.Difficulty.Work.{check_difficulty-fits}

abbrev fits : ℕ → Num
fits n = if ltb n u256_mod then ok n else err panic

fits_lem : (n : ℕ) → n < u256_mod → fits n ≡ ok n
fits_lem n h = elim (Bool-cases (ltb n u256_mod)) [
  | inl q ↦ rw q refl
  | inr q ↦ absurd (ground (arith, q, h))
]

minus_fits : (a b : ℕ) → b ≤ a → (if leb b a then ok (a - b) else err panic) ≡ ok (a - b)
minus_fits a b h = elim (Bool-cases (leb b a)) [
  | inl q ↦ rw q refl
  | inr q ↦ absurd (ground (arith, q, h))
]

over_fits : (a b : ℕ) → 0 < b → (if ltb 0 b then ok (a / b) else err panic) ≡ ok (a / b)
over_fits a b h = elim (Bool-cases (ltb 0 b)) [
  | inl q ↦ rw q refl
  | inr q ↦ absurd (ground (arith, q, h))
]

from_bytes : List ℕ → ℕ → ℕ
from_bytes [] n = n
from_bytes (byte ∷ rest) n = from_bytes rest (n * 256 + byte)

-- Operators that panic wherever the value does not fit.
abbrev checked : Operators
checked = record {
  mul = λ a b. fits (a * b);
  add = λ a b. fits (a + b);
  sub = λ a b. if leb b a then ok (a - b) else err panic;
  div = λ a b. if ltb 0 b then ok (a / b) else err panic;
  shl = λ a n. a * 2 ^ n % u256_mod;
  shr = λ a n. a / 2 ^ n;
  from_big_endian = λ bytes. from_bytes bytes 0;
  mul_fits = λ a b h. fits_lem (a * b) h;
  add_fits = λ a b h. fits_lem (a + b) h;
  sub_fits = minus_fits;
  div_fits = over_fits;
  shl_lem = λ a n. refl;
  shr_lem = λ a n. refl;
}

-- The cases of `test_kalman_filter` in the source.
first_case : kalman_filter checked 300 1 initial_covariance ≡ ok (1, 4501837440)
unfolding kalman_filter update_estimate
first_case = refl

second_case : kalman_filter checked 150 1 4501837440 ≡ ok (1, 4699383461)
unfolding kalman_filter update_estimate
second_case = refl

calculate_difficulty-IsNext_example :
    (d : ℕ) × (p' : ℕ) × (calculate_difficulty checked 1000 21000 600000 initial_covariance 300000
      ≡ ok (d, p'))
    × IsNext checked
        (600000 / solve_time_of checked 1000 21000)
        (600000 / 15000)
        initial_covariance
        300000
        d
        p'
calculate_difficulty-IsNext_example =
    calculate_difficulty-IsNext checked 1000 21000 600000 initial_covariance 300000 (omega arith)
      (omega arith)

zero_refused : check_difficulty checked (1 ∷ 0 ∷ []) 0 ≡ err difficulty_cannot_be_zero
unfolding check_difficulty compute_difficulty_target
zero_refused = refl

check_difficulty-fits_example :
    (accepts : Bool) × (check_difficulty checked (1 ∷ 0 ∷ []) 5 ≡ ok accepts)
    × ((accepts ≡ true) ↔ (checked.from_big_endian (1 ∷ 0 ∷ []) * 5 < u256_mod))
check_difficulty-fits_example = check_difficulty-fits checked (1 ∷ 0 ∷ []) 5 (omega arith)
