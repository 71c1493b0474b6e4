-- ===== src/Account/Cache.antt =====
-- xelis_common/src/account/mod.rs: `CiphertextCache`
pub mod Coherence
use xelis_blockchain.Prelude.{
  ℕ, zero, suc, ◌+◌, ◌-◌, ◌*◌, ◌/◌, ◌%◌, ◌^◌, ◌≤◌, ◌<◌, ◌≡◌, refl, sym, ap, ◌∙◌, subst, ◌≢◌, ◌↔◌,
  ◌⊎◌, inl, inr, Bool, true, false, not, ◌&&◌, ◌||◌, Option, none, some, List, [], ◌∷◌, ◌++◌, map,
  append_assoc, append-nil, arith, ltb, leb, ◌==◌, if◌then◌else◌, Bool-cases, Option-cases, length,
  get_elem?, take, drop, All, length-append,
}
use xelis_blockchain.Prelude.Results.{Result, ok, err, ◌>>=◌}
use xelis_blockchain.Serializer.Writer.{Writer, write_bytes}
use xelis_blockchain.Serializer.Reader.{Read, read_bytes, array}
use xelis_blockchain.Serializer.Reader

-- `CompressedCiphertext`: two compressed points of 32 bytes.
pub record CompressedCiphertext : Type 0 where
  pub commitment : List ℕ
  pub handle : List ℕ

-- What the code uses of the curve's library: points, their compression, and decompression, which
-- may fail and which undoes the compression.
pub record ElGamal : Type 1 where
  pub Ciphertext : Type 0
  pub compress : Ciphertext → CompressedCiphertext
  pub decompress : CompressedCiphertext → Option Ciphertext
  pub compress-decompress :
      (c : CompressedCiphertext) (e : Ciphertext) → decompress c ≡ some e → compress e ≡ c
  pub decompress-compress : (e : Ciphertext) → decompress (compress e) ≡ some e

pub data DecompressionError : Type 0 where
  invalid_point : DecompressionError

module _ (g : ElGamal) where
  open g use {Ciphertext, decompress}

  pub data CiphertextCache : Type 0 where
    compressed : CompressedCiphertext → CiphertextCache
    decompressed : Ciphertext → CiphertextCache
    -- the flag says that the ciphertext was modified
    both : CompressedCiphertext → Ciphertext → Bool → CiphertextCache

  abbrev pub decompress_or : CompressedCiphertext → Result DecompressionError Ciphertext
  decompress_or c = elim (decompress c) [ some e ↦ ok e | none ↦ err invalid_point ]

  -- A method with `&mut self` returns the new cache; `computable` takes what its caller writes
  -- through the reference that it returns.
  unfoldable pub computable :
      (Ciphertext → Ciphertext) → CiphertextCache → Result DecompressionError CiphertextCache
  computable modify (compressed c) = do e ← decompress_or c; ok (decompressed (modify e))
  computable modify (decompressed e) = ok (decompressed (modify e))
  computable modify (both c e dirty) = ok (both c (modify e) true)

  unfoldable pub compress : CiphertextCache → CompressedCiphertext
  compress (compressed c) = c
  compress (decompressed e) = g.compress e
  compress (both c e dirty) = if dirty then g.compress e else c

  -- `compressed`
  unfoldable pub to_compressed : CiphertextCache → CiphertextCache × CompressedCiphertext
  to_compressed (compressed c) = (compressed c, c)
  to_compressed (decompressed e) = (both (g.compress e) e false, g.compress e)
  to_compressed (both c e dirty) =
      if dirty then (both (g.compress e) e dirty, g.compress e) else (both c e dirty, c)

  -- `decompressed`
  unfoldable pub to_decompressed :
      CiphertextCache → Result DecompressionError (CiphertextCache × Ciphertext)
  to_decompressed (compressed c) = do e ← decompress_or c; ok (both c e false, e)
  to_decompressed (decompressed e) = ok (decompressed e, e)
  to_decompressed (both c e dirty) = ok (both c e dirty, e)

  -- `both`
  unfoldable pub to_both :
      CiphertextCache
      → Result DecompressionError (CiphertextCache × CompressedCiphertext × Ciphertext)
  to_both (both c e dirty) =
      if dirty then ok (both (g.compress e) e dirty, g.compress e, e) else ok (both c e dirty, c, e)
  to_both (compressed c) = do e ← decompress_or c; ok (both c e false, c, e)
  to_both (decompressed e) = ok (both (g.compress e) e false, g.compress e, e)

  unfoldable pub take_ciphertext : CiphertextCache → Result DecompressionError Ciphertext
  take_ciphertext (compressed c) = decompress_or c
  take_ciphertext (decompressed e) = ok e
  take_ciphertext (both c e dirty) = ok e

unfoldable pub write_compressed : CompressedCiphertext → Writer → Writer
write_compressed c w = write_bytes c.handle (write_bytes c.commitment w)

unfoldable pub read_compressed : Read CompressedCiphertext
read_compressed = Reader.◌>>=◌ (read_bytes (array 32) 32) λ commitment.
    Reader.◌>>=◌ (read_bytes (array 32) 32)
      λ handle. Reader.pure (record { commitment = commitment; handle = handle })
