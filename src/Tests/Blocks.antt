-- ===== src/Tests/Blocks.antt =====
-- Headers and miner works at concrete inputs.
use xelis_blockchain.Prelude.{
  ℕ, ◌≡◌, refl, none, some, List, [], ◌∷◌, arith, length, replicate, get_elem?, ◌≢◌, ap, ◌<◌, sym,
  ◌∙◌,
}
use xelis_blockchain.Prelude.Results.{ok, some_injective}
use xelis_blockchain.Prelude.Equality.{bytes_eq, list_beq}
use xelis_blockchain.Serializer.Bytes.{to_be_bytes}
use xelis_blockchain.Serializer.Trait.{to_bytes, from_bytes}
use xelis_blockchain.Serializer.Reader
use xelis_blockchain.Block.Header.{BlockHeader, block_header}
use xelis_blockchain.Block.Header.RoundTrip.{IsReadable, block_header_round_trip}
use xelis_blockchain.Block.Header.Sound.{IsWellFormed, read_header_sound}
use xelis_blockchain.Block.Miner.{
  MinerWork, miner_work, get_pow_hash, set_miner, set_thread_id, set_thread_id_u16, miner_bytes,
}
use xelis_blockchain.Block.Miner
use xelis_blockchain.Block.Miner.Stale.{IsOutdated, get_pow_hash_stale}
use xelis_blockchain.Block.Miner.Fresh.{
  IsFresh, get_pow_hash_current, steps, timestamp, next_nonce, compute, MinerStep,
}

abbrev header : BlockHeader
header = record {
  version = 0;
  tips = replicate 32 1 ∷ replicate 32 2 ∷ [];
  timestamp = 1700000000000;
  height = 12;
  nonce = 99;
  extra_nonce = replicate 32 0;
  miner = replicate 32 5;
  txs_hashes = replicate 32 9 ∷ [];
}

header-IsReadable : IsReadable header
unfolding list_beq
header-IsReadable = record {
  version = refl;
  height = omega arith;
  timestamp = omega arith;
  nonce = omega arith;
  extra_nonce = refl;
  miner = refl;
  few_tips = omega arith;
  tips = (refl, (refl, tt));
  distinct_tips = (refl, (refl, tt));
  few_txs = omega arith;
  txs = (refl, tt);
  distinct_txs = (refl, tt);
}

block_header_round_trip_example :
    (from_bytes block_header (to_bytes block_header header) ≡ ok header)
    × (block_header.size header ≡ length (to_bytes block_header header))
block_header_round_trip_example = block_header_round_trip header header-IsReadable

read_header_sound_example : IsWellFormed header
unfolding Reader.new
read_header_sound_example =
    read_header_sound (Reader.new (to_bytes block_header header)) header
      (block_header_round_trip header header-IsReadable).0

abbrev work : MinerWork
work = record {
  header_work_hash = replicate 32 7;
  timestamp = 5;
  nonce = 0;
  miner = none;
  extra_nonce = replicate 32 0;
  cache = none;
}

work-IsFresh : IsFresh work
work-IsFresh = record { work_hash = refl; current = tt }

abbrev same : List ℕ → List ℕ
same bytes = bytes

abbrev mining : List (MinerStep same)
mining = compute ∷ next_nonce ∷ timestamp 6 ∷ next_nonce ∷ []

get_pow_hash_current_example :
    (get_pow_hash same (steps same mining work)).1 ≡ to_bytes miner_work (steps same mining work)
get_pow_hash_current_example = get_pow_hash_current same mining work work-IsFresh

-- The work that a miner starts from.
abbrev started : MinerWork
started = Miner.new (replicate 32 7) 5

started-IsFresh : IsFresh started
unfolding Miner.new
started-IsFresh = record { work_hash = refl; current = tt }

-- Two lists that differ at a place.
other_byte :
    (i a b : ℕ) {xs ys : List ℕ}
    → get_elem? xs i ≡ some a
    → get_elem? ys i ≡ some b
    → a < b
    → xs ≢ ys
other_byte i a b p q l e = omega (arith, l, some_injective (sym p ∙ ap (λ t. get_elem? t i) e ∙ q))

started_miner : miner_bytes started.miner ≢ replicate 32 8
unfolding Miner.new miner_bytes
started_miner = other_byte 31 0 8 refl refl (omega arith)

started_thread : started.extra_nonce ≢ (set_thread_id 3 started).extra_nonce
unfolding Miner.new set_thread_id
started_thread = other_byte 31 0 3 refl refl (omega arith)

started_thread_u16 : started.extra_nonce ≢ (set_thread_id_u16 3 started).extra_nonce
unfolding Miner.new set_thread_id_u16 to_be_bytes
started_thread_u16 = other_byte 31 0 3 refl refl (omega arith)

get_pow_hash_stale_example :
    let hashed = (get_pow_hash same started).0 in
    IsOutdated same started (set_miner (replicate 32 8) hashed)
    × IsOutdated same started (set_thread_id 3 hashed)
    × IsOutdated same started (set_thread_id_u16 3 hashed)
get_pow_hash_stale_example =
    get_pow_hash_stale same started (replicate 32 8) 3 started-IsFresh started_miner started_thread
      started_thread_u16
