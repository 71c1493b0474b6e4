-- ===== src/Economy.antt =====
-- The emission and the fees: `get_block_reward`, `side_block_reward_percentage`,
-- `internal_get_block_reward` and `get_block_dev_fee` of xelis_daemon/src/core/blockchain.rs, and
-- `calculate_tx_fee` of xelis_common/src/utils.rs, with the constants of the two config.rs.
-- A u64 wraps at 2 ^ 64, as the release profile has it.
pub mod Emission
pub mod Fees
use xelis_blockchain.Prelude.{
  zero, suc, ℕ, ◌^◌, ◌*◌, if◌then◌else◌, Bool, List, ◌/◌, suc, leb, ltb, ◌%◌, ◌∷◌, ◌+◌, ◌-◌, [],
  ◌==◌,
}

abbrev pub coin_value : ℕ
coin_value = 10 ^ 8

abbrev pub maximum_supply : ℕ
maximum_supply = 18400000 * coin_value

abbrev pub emission_speed_factor : ℕ
emission_speed_factor = 20

abbrev pub millis_per_second : ℕ
millis_per_second = 1000

abbrev pub block_time_millis : ℕ
block_time_millis = 15 * millis_per_second

abbrev pub side_block_reward_percent : ℕ
side_block_reward_percent = 30

abbrev pub side_block_reward_max_blocks : ℕ
side_block_reward_max_blocks = 3

abbrev pub side_block_reward_min_percent : ℕ
side_block_reward_min_percent = 5

abbrev pub u64_mod : ℕ
u64_mod = 2 ^ 64

-- The subtraction is guarded by the test; the product may wrap.
unfoldable pub get_block_reward : ℕ → ℕ
get_block_reward supply =
    if leb maximum_supply supply
    then 0
    else (let base_reward = (maximum_supply - supply) / 2 ^ emission_speed_factor in
        base_reward * block_time_millis % u64_mod / millis_per_second / 180)

unfoldable pub side_block_reward_percentage : ℕ → ℕ
side_block_reward_percentage side_blocks =
    if ltb 0 side_blocks
    then (if ltb side_blocks side_block_reward_max_blocks
        then side_block_reward_percent / (side_blocks * 2 % u64_mod)
        else side_block_reward_min_percent)
    else side_block_reward_percent

unfoldable pub internal_get_block_reward : ℕ → Bool → ℕ → ℕ
internal_get_block_reward past_supply is_side_block side_blocks_count =
    if is_side_block
    then get_block_reward past_supply
      * side_block_reward_percentage side_blocks_count
      % u64_mod
      / 100
    else get_block_reward past_supply

pub record DevFeeThreshold : Type 0 where
  pub height : ℕ
  pub fee_percentage : ℕ

abbrev pub dev_fees : List DevFeeThreshold
dev_fees =
    record { height = 0; fee_percentage = 10 }
    ∷ record { height = 3250000; fee_percentage = 5 }
    ∷ []

-- `for threshold in DEV_FEES.iter() { if height >= threshold.height { .. } }`
dev_fee_loop : ℕ → List DevFeeThreshold → ℕ → ℕ
dev_fee_loop height [] percentage = percentage
dev_fee_loop height (threshold ∷ rest) percentage =
    dev_fee_loop height rest
      (if leb threshold.height height then threshold.fee_percentage else percentage)

unfoldable pub get_block_dev_fee : ℕ → ℕ
unfolding dev_fee_loop
get_block_dev_fee height = dev_fee_loop height dev_fees 0

abbrev pub fee_per_kb : ℕ
fee_per_kb = 10000

abbrev pub fee_per_account_creation : ℕ
fee_per_account_creation = 100000

abbrev pub fee_per_transfer : ℕ
fee_per_transfer = 5000

unfoldable pub calculate_tx_fee : ℕ → ℕ → ℕ → ℕ
calculate_tx_fee tx_size output_count new_addresses =
    let size_in_kb = tx_size / 1024 + (if tx_size % 1024 == 0 then 0 else 1) in
    (size_in_kb * fee_per_kb
      + output_count * fee_per_transfer
      + new_addresses * fee_per_account_creation)
    % u64_mod

-- The supply after some blocks in their order, each with whether it is a side block and the number
-- of the other side blocks at its height: `past_supply + block_reward` for each.
unfoldable pub emit : List (Bool × ℕ) → ℕ → ℕ
emit [] supply = supply
emit ((is_side_block, side_blocks_count) ∷ rest) supply =
    emit rest
      ((supply + internal_get_block_reward supply is_side_block side_blocks_count) % u64_mod)
