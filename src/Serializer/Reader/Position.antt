-- ===== src/Serializer/Reader/Position.antt =====
-- What each read returns from a known place in the bytes: the reader has gone past `pre`, and what
-- it is to read stands in front of `rest`.
use xelis_blockchain.Prelude.{
  ℕ, ◌+◌, ◌-◌, ◌<◌, ◌^◌, ◌≡◌, refl, Bool, true, false, if◌then◌else◌, Option, some, List, [], ◌∷◌,
  ◌++◌, arith, length, length-append, drop-append, take-append, get_elem?-append_at, append_assoc,
  take, drop, ge→ltb, ==_iff, ltb, subst, append-nil,
}
use xelis_blockchain.Prelude.Results.{ok}
use xelis_blockchain.Serializer.Bytes.{
  to_be_bytes, length-to_be_bytes, from_be_bytes-to_be_bytes, is_utf8,
}
use xelis_blockchain.Serializer.Reader.{
  Reader, size, read_bytes, array, read_number, read_u8, read_bool, read_hash, read_bytes_32,
  read_string_with_size, read_u16, read_u64, read_bytes_ref, read_u32, read_u128, Read,
}

abbrev pub at : List ℕ → List ℕ → Reader
at pre rest = record { bytes = pre ++ rest; total = length pre }

pub size-at : (pre rest : List ℕ) → size (at pre rest) ≡ length rest
unfolding size
size-at pre rest = omega (arith, length-append pre rest)

slice : (pre xs rest : List ℕ) → take (length xs) (drop (length pre) (pre ++ (xs ++ rest))) ≡ xs
slice pre xs rest = rw drop-append (take-append xs rest)

step :
    (pre xs rest : List ℕ)
    → record (at pre (xs ++ rest)) { total = length pre + length xs } ≡ at (pre ++ xs) rest
step pre xs rest = cc (append_assoc pre xs rest, length-append pre xs)

enough :
    (pre xs rest : List ℕ) → ltb (length (pre ++ (xs ++ rest)) - length pre) (length xs) ≡ false
enough pre xs rest =
    ge→ltb _ _ (omega (arith, length-append pre (xs ++ rest), length-append xs rest))

pub read_bytes_at {ℓ} :
    {T : Type ℓ} (try_into : List ℕ → Option T) (pre xs rest : List ℕ) {t : T}
    → try_into xs ≡ some t
    → read_bytes try_into (length xs) (at pre (xs ++ rest)) ≡ (ok t, at (pre ++ xs) rest)
unfolding read_bytes
read_bytes_at try_into pre xs rest h =
    rw (enough pre xs rest, slice pre xs rest, h, step pre xs rest)

pub read_array_at :
    (n : ℕ) (pre xs rest : List ℕ)
    → length xs ≡ n
    → read_bytes (array n) n (at pre (xs ++ rest)) ≡ (ok xs, at (pre ++ xs) rest)
unfolding array
read_array_at n pre xs rest e =
    subst (λ n. read_bytes (array n) n (at pre (xs ++ rest)) ≡ (ok xs, at (pre ++ xs) rest)) e
      (read_bytes_at _ pre xs rest (rw (==_iff (length xs) (length xs)).1 refl))

pub read_number_at :
    (n v : ℕ) (pre rest : List ℕ)
    → v < 256 ^ n
    → read_number n (at pre (to_be_bytes n v ++ rest)) ≡ (ok v, at (pre ++ to_be_bytes n v) rest)
unfolding read_number
read_number_at n v pre rest h =
    rw (read_array_at n pre _ rest (length-to_be_bytes n v), from_be_bytes-to_be_bytes n v h)

pub read_u8_at :
    (b : ℕ) (pre rest : List ℕ) → read_u8 (at pre (b ∷ rest)) ≡ (ok b, at (pre ++ b ∷ []) rest)
unfolding read_u8
read_u8_at b pre rest = rw (get_elem?-append_at pre b rest) (
    ground
      (arith, size-at pre (b ∷ rest), append_assoc pre (b ∷ []) rest, length-append pre (b ∷ [])))

pub read_u16_at :
    (v : ℕ) (pre rest : List ℕ)
    → v < 2 ^ 16
    → read_u16 (at pre (to_be_bytes 2 v ++ rest)) ≡ (ok v, at (pre ++ to_be_bytes 2 v) rest)
unfolding read_u16
read_u16_at v pre rest h = read_number_at 2 v pre rest (omega arith)

pub read_u32_at :
    (v : ℕ) (pre rest : List ℕ)
    → v < 2 ^ 32
    → read_u32 (at pre (to_be_bytes 4 v ++ rest)) ≡ (ok v, at (pre ++ to_be_bytes 4 v) rest)
unfolding read_u32
read_u32_at v pre rest h = read_number_at 4 v pre rest (omega arith)

pub read_u64_at :
    (v : ℕ) (pre rest : List ℕ)
    → v < 2 ^ 64
    → read_u64 (at pre (to_be_bytes 8 v ++ rest)) ≡ (ok v, at (pre ++ to_be_bytes 8 v) rest)
unfolding read_u64
read_u64_at v pre rest h = read_number_at 8 v pre rest (omega arith)

pub read_u128_at :
    (v : ℕ) (pre rest : List ℕ)
    → v < 2 ^ 128
    → read_u128 (at pre (to_be_bytes 16 v ++ rest)) ≡ (ok v, at (pre ++ to_be_bytes 16 v) rest)
unfolding read_u128
read_u128_at v pre rest h = read_number_at 16 v pre rest (omega arith)

pub read_hash_at :
    (h pre rest : List ℕ)
    → length h ≡ 32
    → read_hash (at pre (h ++ rest)) ≡ (ok h, at (pre ++ h) rest)
unfolding read_hash read_bytes_32
read_hash_at h pre rest e = read_array_at 32 pre h rest e

pub read_bytes_32_at :
    (h pre rest : List ℕ)
    → length h ≡ 32
    → read_bytes_32 (at pre (h ++ rest)) ≡ (ok h, at (pre ++ h) rest)
unfolding read_bytes_32
read_bytes_32_at h pre rest e = read_array_at 32 pre h rest e

pub read_bytes_ref_at :
    (pre xs rest : List ℕ)
    → read_bytes_ref (length xs) (at pre (xs ++ rest)) ≡ (ok xs, at (pre ++ xs) rest)
unfolding read_bytes_ref
read_bytes_ref_at pre xs rest = rw (enough pre xs rest, slice pre xs rest, step pre xs rest)

pub read_bool_at :
    (b : Bool) (pre rest : List ℕ)
    → read_bool (at pre ((if b then 1 else 0) ∷ rest))
      ≡ (ok b, at (pre ++ (if b then 1 else 0) ∷ []) rest)
unfolding read_bool
read_bool_at true pre rest = rw (read_u8_at 1 pre rest)
read_bool_at false pre rest = rw (read_u8_at 0 pre rest)

pub read_string_with_size_at :
    (pre v rest : List ℕ)
    → is_utf8 v ≡ true
    → read_string_with_size (length v) (at pre (v ++ rest)) ≡ (ok v, at (pre ++ v) rest)
unfolding read_string_with_size
read_string_with_size_at pre v rest h = rw (read_bytes_at some pre v rest refl, h)

-- A read of all that is left.
pub at_end {ℓ} :
    {A : Type ℓ} (m : Read A) (pre xs : List ℕ) {a : A}
    → m (at pre (xs ++ [])) ≡ (ok a, at (pre ++ xs) [])
    → m (at pre xs) ≡ (ok a, at (pre ++ xs) [])
at_end m pre xs {a} h =
    subst (λ bytes. m (at pre bytes) ≡ (ok a, at (pre ++ xs) [])) (append-nil xs) h
