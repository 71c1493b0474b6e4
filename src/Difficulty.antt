-- ===== src/Difficulty.antt =====
-- xelis_daemon/src/core/difficulty.rs and xelis_common/src/difficulty.rs: the difficulty of the next
-- block, and the check of a hash. A `VarUint` is a number; the operators of `U256` of the crate
-- `primitive-types` are an argument, with what they give where they do not panic.
pub mod Filter
pub mod Work
use xelis_blockchain.Prelude.{
  ℕ, zero, suc, ◌+◌, ◌-◌, ◌*◌, ◌/◌, ◌%◌, ◌^◌, ◌≤◌, ◌<◌, ◌≡◌, refl, sym, ap, ◌∙◌, subst, ◌≢◌, ◌↔◌,
  ◌⊎◌, inl, inr, Bool, true, false, not, ◌&&◌, ◌||◌, Option, none, some, List, [], ◌∷◌, ◌++◌, map,
  append_assoc, append-nil, arith, ltb, leb, ◌==◌, if◌then◌else◌, Bool-cases, Option-cases, length,
  get_elem?, take, drop, All, length-append,
}
use xelis_blockchain.Economy.{block_time_millis}
use xelis_blockchain.Prelude.Results.{Result, ok, err, ◌>>=◌}

-- The end of the thread by an operator that cannot give its value.
pub data Panic : Type 0 where
  panic : Panic

abbrev pub Num : Type 0
Num = Result Panic ℕ

abbrev pub u256_mod : ℕ
u256_mod = 2 ^ 256

pub record Operators : Type 0 where
  pub mul : ℕ → ℕ → Num
  pub add : ℕ → ℕ → Num
  pub sub : ℕ → ℕ → Num
  pub div : ℕ → ℕ → Num
  pub shl : ℕ → ℕ → ℕ
  pub shr : ℕ → ℕ → ℕ
  pub from_big_endian : List ℕ → ℕ
  pub mul_fits : (a b : ℕ) → a * b < u256_mod → mul a b ≡ ok (a * b)
  pub add_fits : (a b : ℕ) → a + b < u256_mod → add a b ≡ ok (a + b)
  pub sub_fits : (a b : ℕ) → b ≤ a → sub a b ≡ ok (a - b)
  pub div_fits : (a b : ℕ) → 0 < b → div a b ≡ ok (a / b)
  pub shl_lem : (a n : ℕ) → shl a n ≡ a * 2 ^ n % u256_mod
  pub shr_lem : (a n : ℕ) → shr a n ≡ a / 2 ^ n

abbrev pub shift : ℕ
shift = 32

abbrev pub left_shift : ℕ
left_shift = 2 ^ 32

-- Five percent of `left_shift`, in whole percents.
abbrev pub process_noise_covar : ℕ
process_noise_covar = 2 ^ 32 / 100 * 5

-- The estimated covariance of the first blocks.
abbrev pub initial_covariance : ℕ
initial_covariance = left_shift

module _ (u : Operators) where
  -- The new estimate, before it is scaled down: moved by a share of its distance from `z`.
  unfoldable pub update_estimate : ℕ → ℕ → ℕ → Num
  update_estimate z x_est_prev k =
      if leb x_est_prev z
      then (do
        distance ← u.sub z x_est_prev
        product ← u.mul k distance
        u.add x_est_prev (u.shr product shift))
      else (do
        distance ← u.sub x_est_prev z
        product ← u.mul k distance
        u.sub x_est_prev (u.shr product shift))

  unfoldable pub kalman_filter : ℕ → ℕ → ℕ → Result Panic (ℕ × ℕ)
  unfolding update_estimate
  kalman_filter observed estimate p_prev = do
    z ← u.mul observed left_shift
    r ← u.mul z 2
    x_est_prev ← u.mul estimate left_shift
    noise ← u.mul x_est_prev process_noise_covar
    p_pred ← u.add (u.shr noise shift) p_prev
    spread ← u.add p_pred r
    divisor ← u.add spread 1
    k ← u.div (u.shl p_pred shift) divisor
    x_est_new ← update_estimate z x_est_prev k
    rest ← u.sub left_shift k
    p_new ← u.mul rest p_pred
    ok (u.shr x_est_new shift, u.shr p_new shift)

  unfoldable pub solve_time_of : ℕ → ℕ → ℕ
  solve_time_of parent_timestamp timestamp =
      let solve_time = (timestamp + 2 ^ 64 - parent_timestamp) % 2 ^ 64 in
      if solve_time == 0 then 1 else solve_time

  unfoldable pub calculate_difficulty : ℕ → ℕ → ℕ → ℕ → ℕ → Result Panic (ℕ × ℕ)
  unfolding kalman_filter solve_time_of
  calculate_difficulty parent_timestamp timestamp previous_difficulty p minimum_difficulty = do
    z ← u.div previous_difficulty (solve_time_of parent_timestamp timestamp)
    estimate ← u.div previous_difficulty block_time_millis
    answer ← kalman_filter z estimate p
    difficulty ← u.mul answer.0 block_time_millis
    if ltb difficulty minimum_difficulty
        then ok (minimum_difficulty, initial_covariance)
        else ok (difficulty, answer.1)

-- `stopped` is a panic.
pub data DifficultyError : Type 0 where
  difficulty_cannot_be_zero : DifficultyError
  stopped : DifficultyError

module _ (u : Operators) where
  or_stopped : Num → Result DifficultyError ℕ
  or_stopped (ok n) = ok n
  or_stopped (err p) = err stopped

  unfoldable pub compute_difficulty_target : ℕ → Result DifficultyError ℕ
  unfolding or_stopped
  compute_difficulty_target difficulty =
      if difficulty == 0
      then err difficulty_cannot_be_zero
      else or_stopped (u.div (u256_mod - 1) difficulty)

  unfoldable pub check_difficulty_against_target : List ℕ → ℕ → Bool
  check_difficulty_against_target hash target = leb (u.from_big_endian hash) target

  unfoldable pub check_difficulty : List ℕ → ℕ → Result DifficultyError Bool
  check_difficulty hash difficulty = do
    target ← compute_difficulty_target difficulty
    ok (check_difficulty_against_target hash target)

  unfoldable pub difficulty_from_hash : List ℕ → Num
  difficulty_from_hash hash = u.div (u256_mod - 1) (u.from_big_endian hash)
