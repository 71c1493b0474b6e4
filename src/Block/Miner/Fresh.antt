-- ===== src/Block/Miner/Fresh.antt =====
-- The cache of a miner's work never goes stale while only the timestamp and the nonce change.
use xelis_blockchain.Prelude.{
  ℕ, ◌+◌, ◌%◌, ◌^◌, ◌≡◌, refl, sym, ap, ◌∙◌, subst, Option, none, some, List, [], ◌∷◌, ◌++◌,
  append_assoc, arith, length, take, drop, length-append, take-append, drop-append,
}
use xelis_blockchain.Serializer.Bytes.{to_be_bytes, length-to_be_bytes}
use xelis_blockchain.Serializer.Writer
use xelis_blockchain.Serializer.Writer.{Writer, write_u64, write_bytes, write_hash}
use xelis_blockchain.Serializer.Trait.{to_bytes}
use xelis_blockchain.Serializer.Collections.Tips.{IsHash}
use xelis_blockchain.Block.Miner.{
  MinerWork, miner_work, write_work, miner_bytes, splice, splice_cache, fill, get_pow_hash,
  set_timestamp, increase_nonce,
}

splice-append :
    (i : ℕ) (a b c xs : List ℕ)
    → length a ≡ i
    → length xs ≡ length b
    → splice i xs (a ++ (b ++ c)) ≡ a ++ (xs ++ c)
unfolding splice
splice-append i a b c xs ha hx =
    subst
      (λ k. take k (a ++ (b ++ c)) ++ (xs ++ drop (k + length xs) (a ++ (b ++ c))) ≡ a ++ (xs ++ c))
      ha
      (rw (take-append a (b ++ c), hx, ← length-append a b, ← append_assoc a b c)
        (rw (drop-append (a ++ b) c)))

-- The bytes of the work, in their order.
unfoldable pub layout : MinerWork → List ℕ
layout w =
    w.header_work_hash
    ++ (to_be_bytes 8 w.timestamp
        ++ (to_be_bytes 8 w.nonce ++ (w.extra_nonce ++ miner_bytes w.miner)))

pub to_bytes-layout : (w : MinerWork) → to_bytes miner_work w ≡ layout w
unfolding Writer.new write_work write_u64 write_bytes write_hash layout
to_bytes-layout w = simp append_assoc

abbrev IsCurrent : MinerWork → Option (List ℕ) → Type 0
IsCurrent w none = Unit {0}
IsCurrent w (some bytes) = bytes ≡ to_bytes miner_work w

-- The work hash has 32 bytes, and the cache, if there is one, holds the bytes of the work.
pub record IsFresh (w : MinerWork) : Type 0 where
  pub work_hash : IsHash w.header_work_hash
  pub current : IsCurrent w w.cache

-- Writing the new bytes of the timestamp, or of the nonce, at their place in the bytes of the work.
splice_timestamp :
    (t : ℕ) (w w' : MinerWork)
    → IsHash w.header_work_hash
    → layout w' ≡ layout (record w { timestamp = t })
    → splice 32 (to_be_bytes 8 t) (to_bytes miner_work w) ≡ to_bytes miner_work w'
unfolding layout
splice_timestamp t w w' f e =
    ap (splice 32 (to_be_bytes 8 t)) (to_bytes-layout w)
    ∙ splice-append 32 w.header_work_hash (to_be_bytes 8 w.timestamp) _ (to_be_bytes 8 t) f
        (length-to_be_bytes 8 t ∙ sym (length-to_be_bytes 8 w.timestamp))
    ∙ sym e
    ∙ sym (to_bytes-layout w')

splice_nonce :
    (n : ℕ) (w w' : MinerWork)
    → IsHash w.header_work_hash
    → layout w' ≡ layout (record w { nonce = n })
    → splice 40 (to_be_bytes 8 n) (to_bytes miner_work w) ≡ to_bytes miner_work w'
unfolding layout
splice_nonce n w w' f e =
    ap (splice 40 (to_be_bytes 8 n))
      (to_bytes-layout w ∙ sym (append_assoc w.header_work_hash (to_be_bytes 8 w.timestamp) _))
    ∙ splice-append 40 (w.header_work_hash ++ to_be_bytes 8 w.timestamp) (to_be_bytes 8 w.nonce) _
        (to_be_bytes 8 n)
        (omega (
          arith,
          length-append w.header_work_hash (to_be_bytes 8 w.timestamp),
          length-to_be_bytes 8 w.timestamp,
        ))
        (length-to_be_bytes 8 n ∙ sym (length-to_be_bytes 8 w.nonce))
    ∙ append_assoc w.header_work_hash (to_be_bytes 8 w.timestamp) _
    ∙ sym e
    ∙ sym (to_bytes-layout w')

keep-IsCurrent :
    (i : ℕ) (xs : List ℕ) (w w' : MinerWork)
    → splice i xs (to_bytes miner_work w) ≡ to_bytes miner_work w'
    → (c : Option (List ℕ)) → IsCurrent w c
    → IsCurrent w' (splice_cache i xs c)
unfolding splice_cache
keep-IsCurrent i xs w w' e none h = tt
keep-IsCurrent i xs w w' e (some bytes) h = ap (splice i xs) h ∙ e

set_timestamp-IsFresh : (t : ℕ) (w : MinerWork) → IsFresh w → IsFresh (set_timestamp t w)
unfolding set_timestamp layout
set_timestamp-IsFresh t w f = record {
  work_hash = f.work_hash;
  current =
      keep-IsCurrent 32 (to_be_bytes 8 t) w _ (splice_timestamp t w _ f.work_hash refl) w.cache
        f.current;
}

increase_nonce-IsFresh : (w : MinerWork) → IsFresh w → IsFresh (increase_nonce w)
unfolding increase_nonce layout
increase_nonce-IsFresh w f = record {
  work_hash = f.work_hash;
  current =
      keep-IsCurrent 40 (to_be_bytes 8 ((w.nonce + 1) % 2 ^ 64)) w _
        (splice_nonce ((w.nonce + 1) % 2 ^ 64) w _ f.work_hash refl) w.cache f.current;
}

pub fill-current :
    (w : MinerWork) (c : Option (List ℕ)) → IsCurrent w c → fill w c ≡ to_bytes miner_work w
unfolding fill
fill-current w none h = refl
fill-current w (some bytes) h = h

module _ {Hash : Type 0} (pow_hash : List ℕ → Hash) where
  pub get_pow_hash-IsFresh :
      (w : MinerWork)
      → IsFresh w
      → IsFresh (get_pow_hash pow_hash w).0
        × ((get_pow_hash pow_hash w).1 ≡ pow_hash (to_bytes miner_work w))
  unfolding get_pow_hash write_work Writer.new
  get_pow_hash-IsFresh w f = (
    record { work_hash = f.work_hash; current = fill-current w w.cache f.current },
    ap pow_hash (fill-current w w.cache f.current),
  )

  -- One step of a miner: a new timestamp, the next nonce, or a hash.
  pub data MinerStep : Type 0 where
    timestamp : ℕ → MinerStep
    next_nonce compute : MinerStep

  unfoldable pub step : MinerStep → MinerWork → MinerWork
  step (timestamp t) w = set_timestamp t w
  step next_nonce w = increase_nonce w
  step compute w = (get_pow_hash pow_hash w).0

  unfoldable pub steps : List MinerStep → MinerWork → MinerWork
  steps [] w = w
  steps (s ∷ rest) w = steps rest (step s w)

  -- After any timestamps, nonces and hashes from a work whose cache is empty or current, the hash is that of the bytes of the work as it then is.
  pub get_pow_hash_current :
      (ss : List MinerStep) (w : MinerWork)
      → IsFresh w
      → (get_pow_hash pow_hash (steps ss w)).1 ≡ pow_hash (to_bytes miner_work (steps ss w))
  unfolding steps step
  get_pow_hash_current [] w f = (get_pow_hash-IsFresh w f).1
  get_pow_hash_current (timestamp t ∷ rest) w f =
      get_pow_hash_current rest _ (set_timestamp-IsFresh t w f)
  get_pow_hash_current (next_nonce ∷ rest) w f =
      get_pow_hash_current rest _ (increase_nonce-IsFresh w f)
  get_pow_hash_current (compute ∷ rest) w f =
      get_pow_hash_current rest _ (get_pow_hash-IsFresh w f).0
