-- ===== src/Economy/Emission.antt =====
-- The reward never lets the supply pass its maximum.
use xelis_blockchain.Prelude.{
  ℕ, zero, suc, ◌+◌, ◌-◌, ◌*◌, ◌/◌, ◌%◌, ◌^◌, ◌≤◌, ◌<◌, ◌≡◌, refl, Bool, true, false, List, [], ◌∷◌,
  arith,
}
use xelis_blockchain.Economy.{
  get_block_reward, maximum_supply, emit, side_block_reward_percentage, internal_get_block_reward,
}

-- The product of the reward formula does not wrap.
reward_no_wrap :
    (supply : ℕ)
    → supply < maximum_supply
    → get_block_reward supply ≡ (maximum_supply - supply) / 2 ^ 20 * 15000 / 1000 / 180
unfolding get_block_reward
reward_no_wrap supply h = ground arith

reward_le : (supply : ℕ) → get_block_reward supply ≤ maximum_supply - supply
unfolding get_block_reward
reward_le supply = ground arith

-- A greater supply never has a greater reward.
pub get_block_reward-antitone : (s t : ℕ) → s ≤ t → get_block_reward t ≤ get_block_reward s
unfolding get_block_reward
get_block_reward-antitone s t h = ground arith

percentage_range :
    (n : ℕ) → (5 ≤ side_block_reward_percentage n) × (side_block_reward_percentage n ≤ 30)
unfolding side_block_reward_percentage
percentage_range zero = omega arith
percentage_range (suc zero) = omega arith
percentage_range (suc (suc zero)) = omega arith
percentage_range (suc (suc (suc n))) = ground arith

reward_small : (supply : ℕ) → get_block_reward supply < 2 ^ 32
unfolding get_block_reward
reward_small supply = ground arith

module _ (r p : ℕ) (h : r < 2 ^ 32) (lo : 5 ≤ p) (hi : p ≤ 30) where
  share_bounds : (r * p % 2 ^ 64 / 100 ≤ r * 30 / 100) × (r * 5 / 100 ≤ r * p % 2 ^ 64 / 100)
  share_bounds = omega (arith, no_wrap, le_mul, mul_le)
    where
      le_mul : r * 5 ≤ r * p
      le_mul = grind arith

      mul_le : r * p ≤ r * 30
      mul_le = grind arith

      no_wrap : r * p % 2 ^ 64 ≡ r * p
      no_wrap = omega (arith, mul_le)

-- A side block's reward is at most 30 percent of the full reward at the same supply and at least 5 percent of it, both rounded down; a block that is no side block has the full reward.
pub side_block_reward_bounds :
    (supply n : ℕ)
    → (internal_get_block_reward supply true n ≤ get_block_reward supply * 30 / 100)
      × (get_block_reward supply * 5 / 100 ≤ internal_get_block_reward supply true n)
      × (internal_get_block_reward supply false n ≡ get_block_reward supply)
unfolding internal_get_block_reward
side_block_reward_bounds supply n =
    let (lo, hi) = percentage_range n in
    let (a, b) =
      share_bounds (get_block_reward supply) (side_block_reward_percentage n) (reward_small supply)
        lo hi in
    (a, b, refl)

any_reward_le :
    (supply : ℕ) (is_side : Bool) (n : ℕ)
    → internal_get_block_reward supply is_side n ≤ maximum_supply - supply
any_reward_le supply true n = omega (arith, reward_le supply, side_block_reward_bounds supply n)
any_reward_le supply false n = omega (arith, reward_le supply, side_block_reward_bounds supply n)

-- Whatever blocks follow one another, full or side blocks, from a supply that is at most the maximum the supply never shrinks and never passes the maximum.
pub emit-le-maximum_supply :
    (blocks : List (Bool × ℕ)) (supply : ℕ)
    → supply ≤ maximum_supply
    → (supply ≤ emit blocks supply) × (emit blocks supply ≤ maximum_supply)
unfolding emit
emit-le-maximum_supply [] supply h = omega arith
emit-le-maximum_supply ((is_side, n) ∷ rest) supply h =
    let bound = any_reward_le supply is_side n in
    omega (
      arith,
      emit-le-maximum_supply rest ((supply + internal_get_block_reward supply is_side n) % 2 ^ 64)
          (omega arith),
    )
