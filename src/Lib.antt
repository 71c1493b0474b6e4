-- ===== src/Lib.antt =====
-- A verification library for Xelis, a block DAG with encrypted balances.
--
-- The program. A daemon (xelis_daemon) keeps a DAG of blocks, orders it, executes the transactions
-- of the ordered blocks and rewards the miners; a common crate (xelis_common) has the data, its
-- bytes and the cryptography; a miner (xelis_miner) and a wallet (xelis_wallet) use both.
--
-- The parts that are modelled, and where:
--   Serializer: xelis_common/src/serializer. `Writer` is the bytes written so far and `Reader` the
--     bytes with a position (writer.rs, reader.rs); a method that changes one of them takes it and
--     returns it, with the result of the Rust method. `Serializer.Trait` is the trait of mod.rs as a
--     record, and `Serializer.Collections` its instances of defaults.rs. A byte is a number below
--     256, a string is its bytes, and `Serializer.Bytes` has the conversions of the standard library
--     (`to_be_bytes`, `from_be_bytes`, the check of UTF-8).
--   Account: xelis_common/src/account. `Account.Cache` is `CiphertextCache` over an interface of the
--     curve's library, `Account.Nonce` and `Account.Balance` are the versions of a nonce and a balance.
--   Block: xelis_common/src/block. `Block.Header` is `BlockHeader`, and `Block.Miner` is `MinerWork`
--     with its cache of the bytes to hash; the padding of those bytes and the errors of its buffer are
--     left to the hash function, an argument.
--   NonceChecker: xelis_daemon/src/core/nonce_checker.rs, which nonces the blocks of an ordering used.
--   Economy: the rewards and fees of xelis_daemon/src/core/blockchain.rs and xelis_common/src/utils.rs.
--   Queue: xelis_common/src/queue.rs. A pointer is its address and value; `Queue.Ordered` is what the
--     queue promises, `Queue.Valid` that its two containers agree, `Queue.Runs` the refinement by its
--     methods but peek_mut and iter_mut, whose references let a caller change the keys of the order.
--   BlockDag: xelis_daemon/src/core/blockdag.rs, the order and the best of the tips of the DAG.
--   Dag: xelis_daemon/src/core/blockchain.rs, over the storage as a record `Provider` of the methods
--     that are called. `Dag` has the sync blocks (`is_sync_block_at_height`) and the side blocks,
--     `Dag.FullOrder` the order of a block over a base (`generate_full_order`), and `Dag.TipBase` the
--     base of a tip and of several tips (`find_tip_base`, `find_common_base`); `Dag.Reachability` tells
--     whether one tip is an ancestor of another (`verify_non_reachability`), and `Dag.Distance`
--     how far below it leaves the main chain (`calculate_distance_from_mainchain`). The crate `lru` is a
--     record `LruCache` with the law that what is found for a key is what was put last.
--   Difficulty: xelis_daemon/src/core/difficulty.rs and xelis_common/src/difficulty.rs, the difficulty
--     of the next block and the check of a hash, over the operators of `U256` as a record.
--   Mempool: xelis_daemon/src/core/mempool.rs, the transactions that wait, and for each account the
--     range of their nonces.
--   Merkle: xelis_daemon/src/core/merkle.rs, the root of a tree of hashes.
--   VarUint: xelis_common/src/varuint.rs, the bytes of a number of 256 bits, over an interface of the
--     crate `primitive-types`.
--   Prelude: names of the standard library, lists, results, and equality of keys.
--   Tests: the theorems at concrete inputs.
--
-- How they interact: the header, the work and the versions are written and read through the
-- interface `Serializer`; the common base of the tips is the base of the order of the best tip,
-- which the sort of `BlockDag` guides; the economy is called for each ordered block, the nonce
-- checker for each of its transactions.
--
-- Conventions. Numbers are natural numbers; arithmetic on a machine integer that can wrap has its
-- `% 2 ^ 64` written out. A map of the Rust standard library is an association list, a set a list
-- without repetition in the order of its insertion. Loops over a counted number of elements recurse
-- on the count, so no fuel is needed; the loop of the Merkle build has as much fuel as there are
-- hashes, since a round leaves fewer. The searches of `Dag` run on fuel and answer `none` when it
-- is used up: for an order one round, one more for each block and one for each of its tips are
-- enough, since a block is expanded once; for a tip base, for the ancestors of a tip, and for its
-- branch the `weight` of `Dag.Weight`, which bounds the ways down from a block. A function that
-- fails returns a `Result`, and the state that it had changed before it failed where a caller can
-- see that state; an error of `generate_full_order` leaves out the entries that it had already put
-- in its cache. Logging is left out.
--
-- Not modelled: the network, the RPC server, the wallet and the prompt, which are input and output;
-- the database; the zero-knowledge proofs, whose curve library is not part of the repository.

pub mod Account
pub mod Block
pub mod BlockDag
pub mod Dag
pub mod Difficulty
pub mod Economy
pub mod Mempool
pub mod Merkle
pub mod NonceChecker
pub mod Prelude
pub mod Queue
pub mod Serializer
pub mod VarUint
pub mod Tests
