-- ===== src/Block/Miner.antt =====
-- xelis_common/src/block/miner.rs: the work of a miner, with its cache of the bytes to hash.
-- The cache is the first 112 bytes of an `AlignedInput` of the crate `xelis-hash`; the rest of that
-- buffer stays zero. The hash function of that crate is an argument; the padding with zeros and the
-- error of `as_mut_slice` in `get_pow_hash` belong to it.
pub mod Fresh
pub mod Stale
use xelis_blockchain.Prelude.{
  ℕ, zero, suc, ◌+◌, ◌-◌, ◌*◌, ◌/◌, ◌%◌, ◌^◌, ◌≤◌, ◌<◌, ◌≡◌, refl, sym, ap, ◌∙◌, subst, ◌≢◌, ◌↔◌,
  ◌⊎◌, inl, inr, Bool, true, false, not, ◌&&◌, ◌||◌, Option, none, some, List, [], ◌∷◌, ◌++◌, map,
  append_assoc, append-nil, arith, ltb, leb, ◌==◌, if◌then◌else◌, Bool-cases, Option-cases, length,
  get_elem?, take, drop, All, length-append, replicate,
}
use xelis_blockchain.Serializer.Bytes.{to_be_bytes}
use xelis_blockchain.Serializer.Writer.{Writer, write_u64, write_bytes, write_hash}
use xelis_blockchain.Serializer.Reader.{
  Read, ◌>>=◌, pure, fail, invalid_size, total_size, read_u64, read_bytes_32, read_hash, read_bytes,
  array,
}
use xelis_blockchain.Serializer.Trait.{Serializer, to_bytes}
use xelis_blockchain.Block.Header.{BlockHeader, get_work_hash}

abbrev pub block_work_size : ℕ
block_work_size = 112

pub record MinerWork : Type 0 where
  pub header_work_hash : List ℕ
  pub timestamp : ℕ
  pub nonce : ℕ
  pub miner : Option (List ℕ)
  pub extra_nonce : List ℕ
  pub cache : Option (List ℕ)

unfoldable pub new : List ℕ → ℕ → MinerWork
new header_work_hash timestamp = record {
  header_work_hash = header_work_hash;
  timestamp = timestamp;
  nonce = 0;
  miner = none;
  extra_nonce = replicate 32 0;
  cache = none;
}

unfoldable pub from_block : (List ℕ → List ℕ) → BlockHeader → MinerWork
from_block hash header = record {
  header_work_hash = get_work_hash hash header;
  timestamp = header.timestamp;
  nonce = 0;
  miner = some header.miner;
  extra_nonce = header.extra_nonce;
  cache = none;
}

unfoldable pub miner_bytes : Option (List ℕ) → List ℕ
miner_bytes (some miner) = miner
miner_bytes none = replicate 32 0

unfoldable pub write_work : MinerWork → Writer → Writer
unfolding miner_bytes
write_work work w = write_bytes (miner_bytes work.miner) (
    write_bytes work.extra_nonce
      (write_u64 work.nonce (write_u64 work.timestamp (write_hash work.header_work_hash w))))

read_work_body : Read MinerWork
read_work_body = do
  header_work_hash ← read_hash
  timestamp ← read_u64
  nonce ← read_u64
  extra_nonce ← read_bytes_32
  miner ← read_bytes (array 32) 32
  pure (record {
    header_work_hash = header_work_hash;
    timestamp = timestamp;
    nonce = nonce;
    extra_nonce = extra_nonce;
    miner = some miner;
    cache = none;
  })

unfoldable pub read_work : Read MinerWork
unfolding read_work_body
read_work r = if total_size r == block_work_size then read_work_body r else fail invalid_size r

abbrev pub miner_work : Serializer MinerWork
miner_work = record { write = write_work; read = read_work; size = λ _. block_work_size }

-- `slice[i..i + xs.len()].copy_from_slice(xs)`
splice : ℕ → List ℕ → List ℕ → List ℕ
splice i xs bytes = take i bytes ++ (xs ++ drop (i + length xs) bytes)

splice_cache : ℕ → List ℕ → Option (List ℕ) → Option (List ℕ)
unfolding splice
splice_cache i xs none = none
splice_cache i xs (some bytes) = some (splice i xs bytes)

pub fill : MinerWork → Option (List ℕ) → List ℕ
fill work none = to_bytes miner_work work
fill work (some bytes) = bytes

module _ {Hash : Type 0} (pow_hash : List ℕ → Hash) where
  unfoldable pub get_pow_hash : MinerWork → MinerWork × Hash
  unfolding fill
  get_pow_hash work =
      let input = fill work work.cache in (record work { cache = some input }, pow_hash input)

unfoldable pub set_timestamp : ℕ → MinerWork → MinerWork
unfolding splice_cache
set_timestamp timestamp work = record work {
  timestamp = timestamp;
  cache = splice_cache 32 (to_be_bytes 8 timestamp) work.cache;
}

unfoldable pub increase_nonce : MinerWork → MinerWork
unfolding splice_cache
increase_nonce work =
    let nonce = (work.nonce + 1) % 2 ^ 64 in
    record work { nonce = nonce; cache = splice_cache 40 (to_be_bytes 8 nonce) work.cache }

unfoldable pub set_miner : List ℕ → MinerWork → MinerWork
set_miner miner work = record work { miner = some miner }

-- `extra_nonce[EXTRA_NONCE_SIZE - 1] = id`
unfoldable pub set_thread_id : ℕ → MinerWork → MinerWork
unfolding splice
set_thread_id id work = record work { extra_nonce = splice 31 (id ∷ []) work.extra_nonce }

unfoldable pub set_thread_id_u16 : ℕ → MinerWork → MinerWork
unfolding splice
set_thread_id_u16 id work = record work {
  extra_nonce = splice 30 (to_be_bytes 2 id) work.extra_nonce;
}
