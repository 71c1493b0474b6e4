-- ===== src/Block/Miner/Stale.antt =====
-- The setters of a miner's work that leave its cache alone: set_miner and the two of the thread id in
-- xelis_common/src/block/miner.rs.
use xelis_blockchain.Serializer.Bytes.{to_be_bytes}
use xelis_blockchain.Prelude.{
  ℕ, ◌≡◌, refl, sym, ap, ◌∙◌, ◌≢◌, some, List, ◌++◌, arith, length, take, drop, length-append,
  drop-append, take-append,
}
use xelis_blockchain.Serializer.Trait.{to_bytes}
use xelis_blockchain.Block.Miner.{
  MinerWork, miner_work, miner_bytes, fill, get_pow_hash, set_miner, set_thread_id,
  set_thread_id_u16,
}
use xelis_blockchain.Block.Miner.Fresh.{layout, to_bytes-layout, fill-current, IsFresh}

cancel_left : (a x y : List ℕ) → a ++ x ≡ a ++ y → x ≡ y
cancel_left a x y h = sym (drop-append a x) ∙ ap (drop (length a)) h ∙ drop-append a y

cancel_right : (a x y : List ℕ) → x ++ a ≡ y ++ a → x ≡ y
cancel_right a x y h =
    sym (take-append x a)
    ∙ ap (take (length x)) h
    ∙ ap (λ n. take n (y ++ a)) same_length
    ∙ take-append y a
  where
    same_length : length x ≡ length y
    same_length = omega (arith, length-append x a, length-append y a, ap length h)

-- The bytes behind the nonce.
ending : MinerWork → List ℕ
ending w = w.extra_nonce ++ miner_bytes w.miner

-- Two works that differ in their last bytes only have different bytes.
to_bytes_apart :
    (w w' : MinerWork)
    → layout w'
      ≡ w.header_work_hash ++ (to_be_bytes 8 w.timestamp ++ (to_be_bytes 8 w.nonce ++ ending w'))
    → ending w ≢ ending w'
    → to_bytes miner_work w ≢ to_bytes miner_work w'
unfolding layout ending
to_bytes_apart w w' e d same = d (
    cancel_left (to_be_bytes 8 w.nonce) _ _ (
      cancel_left (to_be_bytes 8 w.timestamp) _ _ (
        cancel_left w.header_work_hash _ _
          (sym (to_bytes-layout w) ∙ same ∙ to_bytes-layout w' ∙ e))))

fill-some : (w : MinerWork) (bytes : List ℕ) → fill w (some bytes) ≡ bytes
unfolding fill
fill-some w bytes = refl

module _ {Hash : Type 0} (pow_hash : List ℕ → Hash) where
  -- The hash of `w'` is that of the bytes of `w`, which are not those of `w'`.
  abbrev pub IsOutdated : MinerWork → MinerWork → Type 0
  IsOutdated w w' =
      ((get_pow_hash pow_hash w').1 ≡ pow_hash (to_bytes miner_work w))
      × (to_bytes miner_work w ≢ to_bytes miner_work w')

  stale :
      (w w' : MinerWork)
      → IsFresh w
      → w'.cache ≡ some (fill w w.cache)
      → layout w'
        ≡ w.header_work_hash ++ (to_be_bytes 8 w.timestamp ++ (to_be_bytes 8 w.nonce ++ ending w'))
      → ending w ≢ ending w'
      → IsOutdated w w'
  unfolding get_pow_hash
  stale w w' f c e d = (
    ap pow_hash (ap (fill w') c ∙ fill-some w' (fill w w.cache) ∙ fill-current w w.cache f.current),
    to_bytes_apart w w' e d,
  )

  -- After a hash of a work whose cache was empty or current, a new miner key, or a thread id of one or two bytes that changes the extra nonce, gives a work whose next hash is that of the bytes before the change, which are not the bytes of the work.
  pub get_pow_hash_stale :
      (w : MinerWork) (miner : List ℕ) (id : ℕ)
      → IsFresh w
      → miner_bytes w.miner ≢ miner
      → w.extra_nonce ≢ (set_thread_id id w).extra_nonce
      → w.extra_nonce ≢ (set_thread_id_u16 id w).extra_nonce
      → let hashed = (get_pow_hash pow_hash w).0 in
        IsOutdated w (set_miner miner hashed)
        × IsOutdated w (set_thread_id id hashed)
        × IsOutdated w (set_thread_id_u16 id hashed)
  unfolding get_pow_hash set_miner set_thread_id set_thread_id_u16 layout ending miner_bytes
  get_pow_hash_stale w miner id f new_miner new_id new_id_u16 = (
    stale w _ f refl refl
        (λ e. new_miner (cancel_left w.extra_nonce (miner_bytes w.miner) miner e)),
    stale w _ f refl refl (λ e. new_id (cancel_right (miner_bytes w.miner) _ _ e)),
    stale w _ f refl refl (λ e. new_id_u16 (cancel_right (miner_bytes w.miner) _ _ e)),
  )
