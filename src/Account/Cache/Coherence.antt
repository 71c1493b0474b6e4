-- ===== src/Account/Cache/Coherence.antt =====
-- A cache stands for one ciphertext, which no method but a modification changes.
use xelis_blockchain.Prelude.{◌≡◌, refl, sym, ap, ◌∙◌, true, false, some, List, [], ◌∷◌, arith}
use xelis_blockchain.Prelude.Results.{Result, ok, err}
use xelis_blockchain.Account.Cache.{
  CompressedCiphertext, ElGamal, CiphertextCache, compressed, decompressed, both, computable,
  compress, to_compressed, to_decompressed, to_both, take_ciphertext, DecompressionError,
  decompress_or,
}

module _ (g : ElGamal) where
  open g use {Ciphertext}

  -- A clean pair holds one ciphertext in two forms.
  abbrev pub IsCoherent : CiphertextCache g → Type 0
  IsCoherent (compressed c) = Unit {0}
  IsCoherent (decompressed e) = Unit {0}
  IsCoherent (both c e true) = Unit {0}
  IsCoherent (both c e false) = g.compress e ≡ c

  -- The cache is coherent and stands for `e`.
  pub record Holds (x : CiphertextCache g) (e : Ciphertext) : Type 0 where
    pub coherent : IsCoherent x
    pub value : take_ciphertext g x ≡ ok e

  decompressed_value :
      (c : CompressedCiphertext) (e : Ciphertext)
      → decompress_or g c ≡ ok e
      → g.decompress c ≡ some e
  decompressed_value c e h = ground arith

  clean : (c : CompressedCiphertext) (e : Ciphertext) → decompress_or g c ≡ ok e → g.compress e ≡ c
  clean c e h = g.compress-decompress c e (decompressed_value c e h)

  same_ok :
      {d e : Ciphertext} → ◌≡◌ {A = Result DecompressionError Ciphertext} (ok d) (ok e) → d ≡ e
  same_ok p = cc

  -- What a modification returns stands for the modified ciphertext.
  pub computable-Holds :
      (f : Ciphertext → Ciphertext) (x : CiphertextCache g) (e : Ciphertext)
      → Holds x e
      → (y : CiphertextCache g) × (computable g f x ≡ ok y) × Holds y (f e)
  unfolding computable take_ciphertext
  computable-Holds f (compressed c) e h =
      (decompressed (f e), rw (h.value), record { coherent = tt; value = refl })
  computable-Holds f (decompressed d) e h =
      (decompressed (f d), refl, record { coherent = tt; value = cc (h.value) })
  computable-Holds f (both c d dirty) e h =
      (both c (f d) true, refl, record { coherent = tt; value = cc (h.value) })

  -- The compressed form of a cache is that of the ciphertext it stands for.
  pub compress-Holds :
      (x : CiphertextCache g) (e : Ciphertext) → Holds x e → compress g x ≡ g.compress e
  unfolding compress take_ciphertext
  compress-Holds (compressed c) e h = sym (clean c e h.value)
  compress-Holds (decompressed d) e h = ap g.compress (same_ok h.value)
  compress-Holds (both c d true) e h = ap g.compress (same_ok h.value)
  compress-Holds (both c d false) e h = sym h.coherent ∙ ap g.compress (same_ok h.value)

  pub to_compressed-Holds :
      (x : CiphertextCache g) (e : Ciphertext)
      → Holds x e
      → Holds (to_compressed g x).0 e × ((to_compressed g x).1 ≡ g.compress e)
  unfolding to_compressed take_ciphertext
  to_compressed-Holds (compressed c) e h =
      (record { coherent = tt; value = h.value }, sym (clean c e h.value))
  to_compressed-Holds (decompressed d) e h =
      (record { coherent = refl; value = h.value }, ap g.compress (same_ok h.value))
  to_compressed-Holds (both c d true) e h =
      (record { coherent = tt; value = h.value }, ap g.compress (same_ok h.value))
  to_compressed-Holds (both c d false) e h = (
    record { coherent = h.coherent; value = h.value },
    sym h.coherent ∙ ap g.compress (same_ok h.value),
  )

  pub to_decompressed-Holds :
      (x : CiphertextCache g) (e : Ciphertext)
      → Holds x e
      → (y : CiphertextCache g) × (to_decompressed g x ≡ ok (y, e)) × Holds y e
  unfolding to_decompressed take_ciphertext
  to_decompressed-Holds (compressed c) e h =
      (both c e false, rw (h.value), record { coherent = clean c e h.value; value = refl })
  to_decompressed-Holds (decompressed d) e h =
      (decompressed d, rw (same_ok h.value), record { coherent = tt; value = h.value })
  to_decompressed-Holds (both c d dirty) e h =
      (both c d dirty, rw (same_ok h.value), record { coherent = h.coherent; value = h.value })

  pub to_both-Holds :
      (x : CiphertextCache g) (e : Ciphertext)
      → Holds x e
      → (y : CiphertextCache g) × (to_both g x ≡ ok (y, g.compress e, e)) × Holds y e
  unfolding to_both take_ciphertext
  to_both-Holds (compressed c) e h = (
    both c e false,
    rw (h.value, clean c e h.value),
    record { coherent = clean c e h.value; value = refl },
  )
  to_both-Holds (decompressed d) e h = (
    both (g.compress d) d false,
    rw (same_ok h.value),
    record { coherent = refl; value = h.value },
  )
  to_both-Holds (both c d true) e h =
      (both (g.compress d) d true, rw (same_ok h.value), record { coherent = tt; value = h.value })
  to_both-Holds (both c d false) e h = (
    both c d false,
    rw (← h.coherent, same_ok h.value),
    record { coherent = h.coherent; value = h.value },
  )

  -- One use of a cache: a modification, or a call of one of the three methods that fill it in.
  pub data CacheCall : Type 0 where
    modify : (Ciphertext → Ciphertext) → CacheCall
    fill_compressed fill_decompressed fill_both : CacheCall

  -- The cache after a call; a call that fails leaves it.
  unfoldable pub call : CacheCall → CiphertextCache g → CiphertextCache g
  call (modify f) x = elim (computable g f x) [ ok y ↦ y | err _ ↦ x ]
  call fill_compressed x = (to_compressed g x).0
  call fill_decompressed x = elim (to_decompressed g x) [ ok p ↦ p.0 | err _ ↦ x ]
  call fill_both x = elim (to_both g x) [ ok p ↦ p.0 | err _ ↦ x ]

  unfoldable pub call_all : List CacheCall → CiphertextCache g → CiphertextCache g
  call_all [] x = x
  call_all (c ∷ rest) x = call_all rest (call c x)

  -- What a call means for the ciphertext, with no cache: only a modification counts.
  meaning : CacheCall → Ciphertext → Ciphertext
  meaning (modify f) e = f e
  meaning fill_compressed e = e
  meaning fill_decompressed e = e
  meaning fill_both e = e

  unfoldable pub meaning_all : List CacheCall → Ciphertext → Ciphertext
  unfolding meaning
  meaning_all [] e = e
  meaning_all (c ∷ rest) e = meaning_all rest (meaning c e)

  call-Holds :
      (c : CacheCall) (x : CiphertextCache g) (e : Ciphertext)
      → Holds x e
      → Holds (call c x) (meaning c e)
  unfolding call meaning
  call-Holds (modify f) x e h = let (y, p, k) = computable-Holds f x e h in rw (p, call) k
  call-Holds fill_compressed x e h = (to_compressed-Holds x e h).0
  call-Holds fill_decompressed x e h = let (y, p, k) = to_decompressed-Holds x e h in rw (p, call) k
  call-Holds fill_both x e h = let (y, p, k) = to_both-Holds x e h in rw (p, call) k

  -- After any calls on a cache that is coherent and stands for `e`, it is coherent and stands for the ciphertext that the modifications alone make of `e`, and its compressed form is that ciphertext's.
  pub call_all-Holds :
      (calls : List CacheCall) (x : CiphertextCache g) (e : Ciphertext)
      → Holds x e
      → Holds (call_all calls x) (meaning_all calls e)
        × (compress g (call_all calls x) ≡ g.compress (meaning_all calls e))
  unfolding call_all meaning_all
  call_all-Holds [] x e h = (h, compress-Holds x e h)
  call_all-Holds (c ∷ rest) x e h =
      call_all-Holds rest (call c x) (meaning c e) (call-Holds c x e h)
