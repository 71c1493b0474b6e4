-- ===== src/Difficulty/Filter.antt =====
-- The filter does not panic, and its estimate lies between the observed value and the estimate before.
use xelis_blockchain.Prelude.{
  if◌then◌else◌, ℕ, ◌+◌, ◌-◌, ◌*◌, ◌/◌, ◌%◌, ◌^◌, ◌≤◌, ◌<◌, ◌≡◌, ◌⊎◌, inl, inr, arith, leb,
  Bool-cases, refl, ltb,
}
use xelis_blockchain.Prelude.Results.{ok, ◌>>=◌, Result}
use xelis_blockchain.Economy.{block_time_millis}
use xelis_blockchain.Difficulty.{
  u256_mod, Operators, shift, left_shift, update_estimate, process_noise_covar, kalman_filter,
  solve_time_of, initial_covariance, calculate_difficulty, Panic,
}
use native.Mathlib.Nat.{div-lt_iff_lt-mul, div-le_self}

div_bound : (x y k : ℕ) → 0 < k → x < y * k → x / k < y
div_bound x y k h l = (div-lt_iff_lt-mul h).1 l

-- The gain is a share of one.
gain_bound : (pp r : ℕ) → pp * 2 ^ 32 % u256_mod / (pp + r + 1) ≤ left_shift
gain_bound pp r = omega (
  arith,
  div_bound (pp * 2 ^ 32 % u256_mod) (left_shift + 1) (pp + r + 1) (omega arith) (gain_lt pp r),
)
  where
    gain_lt : (pp r : ℕ) → pp * 2 ^ 32 % u256_mod < (left_shift + 1) * (pp + r + 1)
    gain_lt pp r = omega arith

product_bound : (k g : ℕ) → k ≤ left_shift → k * g ≤ left_shift * g
product_bound k g h = grind (arith, h)

share_bound : (k g : ℕ) → k ≤ left_shift → k * g / 2 ^ 32 ≤ g
share_bound k g h = omega (arith, product_bound k g h)

module _ (u : Operators) where
  -- Between two values, in whichever order they stand.
  abbrev IsBetween : ℕ → ℕ → ℕ → Type 0
  IsBetween a b n = ((a ≤ n) × (n ≤ b)) ⊎ ((b ≤ n) × (n ≤ a))

  update_up :
      (z x k : ℕ)
      → z < 2 ^ 160
      → x ≤ z
      → k ≤ left_shift
      → (n : ℕ) × ((u.sub z x >>= λ distance.
            u.mul k distance >>= λ product. u.add x (u.shr product shift))
          ≡ ok n)
        × (x ≤ n)
        × (n ≤ z)
  update_up z x k hz l hk =
      let share = share_bound k (z - x) hk in
      (
        x + k * (z - x) / 2 ^ 32,
        rw
            (
              u.sub_fits z x l,
              u.mul_fits k (z - x) (omega (arith, product_bound k (z - x) hk, hz)),
              u.shr_lem (k * (z - x)) shift,
            )
            (u.add_fits x (k * (z - x) / 2 ^ 32) (omega (arith, share, hz, l))),
        omega arith,
        omega (arith, share, l),
      )

  update_down :
      (z x k : ℕ)
      → x < 2 ^ 160
      → z ≤ x
      → k ≤ left_shift
      → (n : ℕ) × ((u.sub x z >>= λ distance.
            u.mul k distance >>= λ product. u.sub x (u.shr product shift))
          ≡ ok n)
        × (z ≤ n)
        × (n ≤ x)
  update_down z x k hx l hk =
      let share = share_bound k (x - z) hk in
      (
        x - k * (x - z) / 2 ^ 32,
        rw
            (
              u.sub_fits x z l,
              u.mul_fits k (x - z) (omega (arith, product_bound k (x - z) hk, hx)),
              u.shr_lem (k * (x - z)) shift,
            )
            (u.sub_fits x (k * (x - z) / 2 ^ 32) (omega (arith, share, l))),
        omega (arith, share, l),
        omega arith,
      )

  update_estimate-IsBetween :
      (z x k : ℕ)
      → z < 2 ^ 160
      → x < 2 ^ 160
      → k ≤ left_shift
      → (n : ℕ) × (update_estimate u z x k ≡ ok n) × IsBetween z x n
  unfolding update_estimate
  update_estimate-IsBetween z x k hz hx hk = elim (Bool-cases (leb x z)) [
    | inl q ↦
        let (n, h, l, m) = update_up z x k hz (ground (arith, q)) hk in
        (n, rw (q, update_estimate) h, inr (l, m))
    | inr q ↦
        let (n, h, l, m) = update_down z x k hx (ground (arith, q)) hk in
        (n, rw (q, update_estimate) h, inl (l, m))
  ]

  -- The estimate of the covariance after the process noise.
  abbrev predicted : ℕ → ℕ → ℕ
  predicted estimate p = estimate * left_shift * process_noise_covar / 2 ^ 32 + p

  predicted_bound :
      (estimate p : ℕ) → estimate < 2 ^ 128 → p < 2 ^ 160 → predicted estimate p < 2 ^ 161
  predicted_bound estimate p h k = omega (arith, h, k)

  scale_down :
      (o e n : ℕ) → IsBetween (o * left_shift) (e * left_shift) n → IsBetween o e (n / 2 ^ 32)
  scale_down o e n (inl (l, m)) = inl (omega (arith, l), omega (arith, m))
  scale_down o e n (inr (l, m)) = inr (omega (arith, l), omega (arith, m))

  rest_bound : (k q : ℕ) → (left_shift - k) * q / 2 ^ 32 ≤ q
  rest_bound k q = share_bound (left_shift - k) q (omega arith)

  pub kalman_filter_lem :
      (o e p : ℕ)
      → o < 2 ^ 128
      → e < 2 ^ 128
      → p < 2 ^ 160
      → (x' : ℕ) × (p' : ℕ) × (kalman_filter u o e p ≡ ok (x', p'))
        × IsBetween o e x'
        × (p' ≤ predicted e p)
  unfolding kalman_filter
  kalman_filter_lem o e p ho he hp =
      let pp = predicted e p in
      let pl = predicted_bound e p he hp in
      let r = o * left_shift * 2 in
      let k = pp * 2 ^ 32 % u256_mod / (pp + r + 1) in
      let kl = gain_bound pp r in
      let (n, h, between) =
        update_estimate-IsBetween (o * left_shift) (e * left_shift) k (omega (arith, ho))
          (omega (arith, he)) kl in
      (
        n / 2 ^ 32,
        (left_shift - k) * pp / 2 ^ 32,
        rw
            (
              u.mul_fits o left_shift (omega (arith, ho)),
              u.mul_fits (o * left_shift) 2 (omega (arith, ho)),
              u.mul_fits e left_shift (omega (arith, he)),
              u.mul_fits (e * left_shift) process_noise_covar (omega (arith, he)),
              u.shr_lem (e * left_shift * process_noise_covar) shift,
              u.add_fits (e * left_shift * process_noise_covar / 2 ^ 32) p (omega (arith, he, hp)),
              u.add_fits pp r (omega (arith, pl, ho)),
              u.add_fits (pp + r) 1 (omega (arith, pl, ho)),
              u.shl_lem pp shift,
              u.div_fits (pp * 2 ^ 32 % u256_mod) (pp + r + 1) (omega arith),
              h,
              u.sub_fits left_shift k kl,
              u.mul_fits (left_shift - k) pp
                  (omega (arith, product_bound (left_shift - k) pp (omega arith), pl)),
              u.shr_lem n shift,
              u.shr_lem ((left_shift - k) * pp) shift,
            )
            refl,
        scale_down o e n between,
        rest_bound k pp,
      )

  -- The milliseconds from a block to the next, of `u64`, and at least one.
  solve_time_pos : (parent_timestamp timestamp : ℕ) → 0 < solve_time_of u parent_timestamp timestamp
  unfolding solve_time_of
  solve_time_pos parent_timestamp timestamp = ground arith

  -- At least the minimum, and that with the initial covariance, or a block time of work at a rate
  -- between the observed one and the estimate, with a covariance that has not grown by more than the
  -- noise.
  pub record IsNext (observed estimate p minimum d p' : ℕ) : Type 0 where
    pub least : minimum ≤ d
    pub value :
        (d ≡ minimum) × (p' ≡ initial_covariance)
        ⊎ IsBetween (observed * block_time_millis) (estimate * block_time_millis) d
          × (p' ≤ predicted estimate p)

  abbrev choose : ℕ → ℕ → ℕ → Result Panic (ℕ × ℕ)
  choose d p' minimum = if ltb d minimum then ok (minimum, initial_covariance) else ok (d, p')

  choose-IsNext :
      (observed estimate p minimum x' p' : ℕ)
      → IsBetween observed estimate x'
      → p' ≤ predicted estimate p
      → (d : ℕ) × (p1 : ℕ) × (choose (x' * block_time_millis) p' minimum ≡ ok (d, p1))
        × IsNext observed estimate p minimum d p1
  choose-IsNext observed estimate p minimum x' p' b l =
      elim (Bool-cases (ltb (x' * block_time_millis) minimum)) [
        | inl q ↦ (
          minimum,
          initial_covariance,
          rw q refl,
          record { least = omega arith; value = inl (refl, refl) },
        )
        | inr q ↦ (
          x' * block_time_millis,
          p',
          rw q refl,
          record {
            least = ground (arith, q);
            value = inr (
              elim b [
                | inl (f, g) ↦ inl (omega (arith, f), omega (arith, g))
                | inr (f, g) ↦ inr (omega (arith, f), omega (arith, g))
              ],
              l,
            );
          },
        )
      ]

  -- For a difficulty below 2 ^ 128 and a covariance below 2 ^ 160 nothing panics. The new difficulty is
  -- at least the minimum: it is the minimum with the initial covariance, or lies between a block time of
  -- work at the observed rate, that of the solve time of `u64`, at least one, and the same at the rate of
  -- the difficulty before, with a covariance that has grown by no more than the process noise.
  pub calculate_difficulty-IsNext :
      (parent_timestamp timestamp previous_difficulty p minimum : ℕ)
      → previous_difficulty < 2 ^ 128
      → p < 2 ^ 160
      → (d : ℕ) × (p' : ℕ) × (calculate_difficulty u parent_timestamp timestamp previous_difficulty
            p minimum
          ≡ ok (d, p'))
        × IsNext
            (previous_difficulty / solve_time_of u parent_timestamp timestamp)
            (previous_difficulty / block_time_millis)
            p
            minimum
            d
            p'
  unfolding calculate_difficulty
  calculate_difficulty-IsNext parent_timestamp timestamp previous p minimum h k =
      let solve = solve_time_of u parent_timestamp timestamp in
      let z = previous / solve in
      let e = previous / block_time_millis in
      let zl : z < 2 ^ 128 = omega (arith, div-le_self previous solve, h) in
      let el : e < 2 ^ 128 = omega (arith, h) in
      let (x', p', f, between, grown) = kalman_filter_lem z e p zl el k in
      let (d, p1, g, next) = choose-IsNext z e p minimum x' p' between grown in
      (
        d,
        p1,
        rw
            (
              u.div_fits previous solve (solve_time_pos parent_timestamp timestamp),
              u.div_fits previous block_time_millis (omega arith),
              f,
              u.mul_fits x' block_time_millis (below x' z e between zl el),
            )
            g,
        next,
      )
    where
      below :
          (x' z e : ℕ)
          → IsBetween z e x'
          → z < 2 ^ 128
          → e < 2 ^ 128
          → x' * block_time_millis < u256_mod
      below x' z e (inl (l, m)) hz he = omega (arith, m, he)
      below x' z e (inr (l, m)) hz he = omega (arith, m, hz)
