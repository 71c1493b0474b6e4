-- ===== src/Block.antt =====
-- xelis_common/src/block: the header of a block, and the work of a miner.
pub mod Header
pub mod Miner
