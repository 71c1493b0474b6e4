-- ===== src/Block/Header.antt =====
-- xelis_common/src/block/header.rs. Hashes and keys are their 32 bytes, an `IndexSet` its list.
-- The hash function of the crate `blake3` is an argument.
pub mod RoundTrip
pub mod Sound
use xelis_blockchain.Prelude.{
  ℕ, zero, suc, ◌+◌, ◌-◌, ◌*◌, ◌/◌, ◌%◌, ◌^◌, ◌≤◌, ◌<◌, ◌≡◌, refl, sym, ap, ◌∙◌, subst, ◌≢◌, ◌↔◌,
  ◌⊎◌, inl, inr, Bool, true, false, not, ◌&&◌, ◌||◌, Option, none, some, List, [], ◌∷◌, ◌++◌, map,
  append_assoc, append-nil, arith, ltb, leb, ◌==◌, if◌then◌else◌, Bool-cases, Option-cases, length,
  get_elem?, take, drop, All, length-append,
}
use xelis_blockchain.Prelude.Equality.{bytes_eq, contains}
use xelis_blockchain.Serializer.Bytes.{to_be_bytes}
use xelis_blockchain.Serializer.Writer.{
  Writer, write_u8, write_u16, write_u64, write_bytes, write_hash,
}
use xelis_blockchain.Serializer.Reader.{
  Read, ◌>>=◌, pure, fail, invalid_value, read_u8, read_u16, read_u64, read_bytes_32, read_hash,
  read_bytes, array,
}
use xelis_blockchain.Serializer.Trait.{Serializer}

abbrev pub tips_limit : ℕ
tips_limit = 3

pub record BlockHeader : Type 0 where
  pub version : ℕ
  pub tips : List (List ℕ)
  pub timestamp : ℕ
  pub height : ℕ
  pub nonce : ℕ
  pub extra_nonce : List ℕ
  pub miner : List ℕ
  pub txs_hashes : List (List ℕ)

unfoldable pub new : ℕ → ℕ → ℕ → List (List ℕ) → List ℕ → List ℕ → List (List ℕ) → BlockHeader
new version height timestamp tips extra_nonce miner txs_hashes = record {
  version = version;
  height = height;
  timestamp = timestamp;
  tips = tips;
  nonce = 0;
  extra_nonce = extra_nonce;
  miner = miner;
  txs_hashes = txs_hashes;
}

-- The bytes of hashes one after the other.
unfoldable pub concat : List (List ℕ) → List ℕ
concat [] = []
concat (hash ∷ rest) = hash ++ concat rest

module _ (hash : List ℕ → List ℕ) where
  unfoldable pub get_tips_hash : BlockHeader → List ℕ
  get_tips_hash h = hash (concat h.tips)

  unfoldable pub get_txs_hash : BlockHeader → List ℕ
  get_txs_hash h = hash (concat h.txs_hashes)

  unfoldable pub get_work : BlockHeader → List ℕ
  unfolding get_tips_hash get_txs_hash
  get_work h = h.version ∷ (to_be_bytes 8 h.height ++ (get_tips_hash h ++ get_txs_hash h))

  unfoldable pub get_work_hash : BlockHeader → List ℕ
  get_work_hash h = hash (get_work h)

  unfoldable pub get_serialized_header : BlockHeader → List ℕ
  get_serialized_header h =
      get_work_hash h
      ++ (to_be_bytes 8 h.timestamp ++ (to_be_bytes 8 h.nonce ++ (h.extra_nonce ++ h.miner)))

  -- `Hashable::hash` of a header, the hash by which a block is known.
  unfoldable pub header_hash : BlockHeader → List ℕ
  header_hash h = hash (get_serialized_header h)

write_hashes : List (List ℕ) → Writer → Writer
write_hashes [] w = w
write_hashes (hash ∷ rest) w = write_hashes rest (write_hash hash w)

-- `len() as u8` keeps the lowest byte.
unfoldable pub write_header : BlockHeader → Writer → Writer
unfolding write_hashes
write_header h w = write_bytes h.miner (
    write_hashes h.txs_hashes (
      write_u16 (length h.txs_hashes) (
        write_hashes h.tips (
          write_u8 (length h.tips % 256) (
            write_bytes h.extra_nonce (
              write_u64 h.nonce
                (write_u64 h.timestamp (write_u64 h.height (write_u8 h.version w)))))))))

-- `for _ in 0..count { if !set.insert(reader.read_hash()?) { return Err } }`
read_hashes : ℕ → List (List ℕ) → Read (List (List ℕ))
read_hashes zero set = pure set
read_hashes (suc n) set = do
  hash ← read_hash
  if contains hash set then fail invalid_value else read_hashes n (set ++ hash ∷ [])

read_tips_set : Read (List (List ℕ))
unfolding read_hashes
read_tips_set = do
  tips_count ← read_u8
  if ltb tips_limit tips_count then fail invalid_value else read_hashes tips_count []

read_txs_set : Read (List (List ℕ))
unfolding read_hashes
read_txs_set = do txs_count ← read_u16; read_hashes txs_count []

read_header_body : ℕ → Read BlockHeader
unfolding read_tips_set read_txs_set
read_header_body version = do
  height ← read_u64
  timestamp ← read_u64
  nonce ← read_u64
  extra_nonce ← read_bytes_32
  tips ← read_tips_set
  txs_hashes ← read_txs_set
  miner ← read_bytes (array 32) 32
  pure (record {
    version = version;
    extra_nonce = extra_nonce;
    height = height;
    timestamp = timestamp;
    tips = tips;
    miner = miner;
    nonce = nonce;
    txs_hashes = txs_hashes;
  })

unfoldable pub read_header : Read BlockHeader
unfolding read_header_body
read_header = do
  version ← read_u8
  if version == 0 then read_header_body version else fail invalid_value

abbrev pub block_header : Serializer BlockHeader
block_header = record {
  write = write_header;
  read = read_header;
  size = λ h. 32 + (1 + length h.tips * 32) + (2 + length h.txs_hashes * 32) + 1 + 32 + 8 + 8 + 8;
}
