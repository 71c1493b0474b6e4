-- ===== src/Serializer/Reader.antt =====
-- xelis_common/src/serializer/reader.rs
-- A read returns its result and the reader that it leaves, also when it fails.
pub mod Position
pub mod Bounds
pub mod Outcome
use xelis_blockchain.Prelude.{
  ℕ, ◌+◌, ◌-◌, Bool, true, false, Option, none, some, List, ltb, ◌==◌, if◌then◌else◌, length,
  get_elem?, take, drop, ◌≡◌, refl,
}
use xelis_blockchain.Prelude.Results.{Result, ok, err}
use xelis_blockchain.Serializer.Bytes.{from_be_bytes, is_utf8}

pub data ReaderError : Type 0 where
  invalid_size invalid_value invalid_hex error_try_into : ReaderError
  try_from_slice_error any : ReaderError

pub record Reader : Type 0 where
  pub bytes : List ℕ
  pub total : ℕ

abbrev pub Read {ℓ} : Type ℓ → Type ℓ
Read A = Reader → Result ReaderError A × Reader

-- The rest of a block after a read that may have failed, the `?` of the source.
abbrev continue {ℓ κ} : {A : Type ℓ} {B : Type κ} → Result ReaderError A → (A → Read B) → Read B
continue (ok a) f r = f a r
continue (err e) f r = (err e, r)

infixl 10 ◌>>=◌ ◌>>◌
abbrev pub ◌>>=◌ {ℓ κ} : {A : Type ℓ} {B : Type κ} → Read A → (A → Read B) → Read B
◌>>=◌ m f r = let (a, r') = m r in continue a f r'

abbrev pub ◌>>◌ {ℓ κ} : {A : Type ℓ} {B : Type κ} → Read A → Read B → Read B
m >> n = m >>= λ _. n

abbrev pub pure {ℓ} : {A : Type ℓ} → A → Read A
pure a r = (ok a, r)

abbrev pub fail {ℓ} : {A : Type ℓ} → ReaderError → Read A
fail e r = (err e, r)

-- A block that succeeds has a first read that succeeds, and the rest succeeds behind it.
pub bind-eq-ok {ℓ κ} :
    {A : Type ℓ} {B : Type κ} (m : Read A) (f : A → Read B) (r : Reader) {b : B}
    → ((m >>= f) r).0 ≡ ok b
    → (a : A) × ((m r).0 ≡ ok a) × ((f a (m r).1).0 ≡ ok b)
bind-eq-ok {A} {B} m f r {b} h = go (m r).0 refl h
  where
    go :
        (x : Result ReaderError A)
        → (m r).0 ≡ x
        → (continue x f (m r).1).0 ≡ ok b
        → (a : A) × ((m r).0 ≡ ok a) × ((f a (m r).1).0 ≡ ok b)
    go (ok a) e k = (a, e, k)
    go (err x) e k = cc

unfoldable pub new : List ℕ → Reader
new bytes = record { bytes = bytes; total = 0 }

unfoldable pub total_size : Reader → ℕ
total_size r = length r.bytes

-- The subtraction does not underflow: no read moves `total` behind the end.
unfoldable pub size : Reader → ℕ
size r = length r.bytes - r.total

-- The conversion `TryFrom<&[u8]>` of the type that is read.
unfoldable pub read_bytes {ℓ} : {T : Type ℓ} → (List ℕ → Option T) → ℕ → Read T
unfolding size
read_bytes try_into n r = if ltb (size r) n then (err invalid_size, r) else (
  elim (try_into (take n (drop r.total r.bytes))) [ some v ↦ ok v | none ↦ err error_try_into ],
  record r { total = r.total + n },
)

unfoldable pub read_bytes_ref : ℕ → Read (List ℕ)
unfolding size
read_bytes_ref n r =
    if ltb (size r) n
    then (err invalid_size, r)
    else (ok (take n (drop r.total r.bytes)), record r { total = r.total + n })

-- `<[u8; N]>::try_from`
unfoldable pub array : ℕ → List ℕ → Option (List ℕ)
array n bytes = if length bytes == n then some bytes else none

unfoldable pub read_bytes_32 : Read (List ℕ)
read_bytes_32 = read_bytes (array 32) 32

unfoldable pub read_bytes_64 : Read (List ℕ)
read_bytes_64 = read_bytes (array 64) 64

unfoldable pub read_hash : Read (List ℕ)
read_hash = read_bytes_32

-- `bytes[total]` is inside the bounds where the size is not 0, so the last case does not arise.
unfoldable pub read_u8 : Read ℕ
unfolding size
read_u8 r = if size r == 0 then (err invalid_size, r) else elim (get_elem? r.bytes r.total) [
  | some byte ↦ (ok byte, record r { total = r.total + 1 })
  | none ↦ (err invalid_size, r)
]

unfoldable pub read_bool : Read Bool
read_bool = do
  byte ← read_u8
  if byte == 0 then pure false else if byte == 1 then pure true else fail invalid_value

-- The bytes of a big-endian number.
unfoldable pub read_number : ℕ → Read ℕ
read_number n = do bytes ← read_bytes (array n) n; pure (from_be_bytes bytes)

unfoldable pub read_u16 : Read ℕ
read_u16 = read_number 2

unfoldable pub read_u32 : Read ℕ
read_u32 = read_number 4

unfoldable pub read_u64 : Read ℕ
read_u64 = read_number 8

unfoldable pub read_u128 : Read ℕ
read_u128 = read_number 16

unfoldable pub read_string_with_size : ℕ → Read (List ℕ)
read_string_with_size size = do
  bytes ← read_bytes some size
  if is_utf8 bytes then pure bytes else fail invalid_value

unfoldable pub read_string : Read (List ℕ)
read_string = do size ← read_u8; read_string_with_size size

unfoldable pub read_optional_string : Read (Option (List ℕ))
read_optional_string = do
  n ← read_u8
  if n == 0 then pure none else do v ← read_string_with_size n; pure (some v)

unfoldable pub read_optional_non_zero_u8 : Read (Option ℕ)
read_optional_non_zero_u8 = do byte ← read_u8; if byte == 0 then pure none else pure (some byte)

unfoldable pub total_read : Reader → ℕ
total_read r = r.total
