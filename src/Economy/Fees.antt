-- ===== src/Economy/Fees.antt =====
-- The dev fee of a block: `get_block_dev_fee` of xelis_daemon/src/core/blockchain.rs.
use xelis_blockchain.Prelude.{ℕ, ◌≡◌, arith, ltb, if◌then◌else◌}
use xelis_blockchain.Economy.{get_block_dev_fee}

-- A block has 10 percent of dev fee below the height 3250000, and 5 percent from there on.
pub get_block_dev_fee_lem :
    (height : ℕ) → get_block_dev_fee height ≡ (if ltb height 3250000 then 10 else 5)
unfolding get_block_dev_fee
get_block_dev_fee_lem height = ground arith
