-- ===== src/Serializer/Reader/Bounds.antt =====
-- No read of the reader moves behind the end of the bytes, changes them, or steps back.
use xelis_blockchain.Prelude.{
  ℕ, ◌≤◌, ◌≡◌, refl, Bool, true, false, Option, List, arith, if◌then◌else◌, length, ◌∙◌,
}
use xelis_blockchain.Prelude.Results.{Result, ok, err}
use xelis_blockchain.Serializer.Reader.{
  Reader, ReaderError, Read, continue, ◌>>=◌, pure, fail, read_bytes, read_bytes_ref, read_u8,
  read_number, read_string_with_size, read_bool, read_string, read_optional_string,
  read_optional_non_zero_u8, read_hash, read_bytes_32, read_bytes_64, read_u16, read_u32, read_u64,
  read_u128, array,
}

-- `r'` is a later place in the bytes of `r`.
pub record Later (r r' : Reader) : Type 0 where
  pub same : r'.bytes ≡ r.bytes
  pub forward : r.total ≤ r'.total
  pub inside : r.total ≤ length r.bytes → r'.total ≤ length r'.bytes

pub record StaysIn {ℓ} {A : Type ℓ} (m : Read A) : Type 0 where
  pub at : (r : Reader) → Later r (m r).1

Later-trans : {a b c : Reader} → Later a b → Later b c → Later a c
Later-trans p q = record {
  same = q.same ∙ p.same;
  forward = omega arith;
  inside = λ h. q.inside (p.inside h);
}

module _ {ℓ} {A : Type ℓ} where
  StaysIn-pure : (a : A) → StaysIn (pure a)
  StaysIn-pure a = record {
    at = λ r. record { same = refl; forward = omega arith; inside = λ h. h };
  }

  StaysIn-fail : (e : ReaderError) → StaysIn (fail {A = A} e)
  StaysIn-fail e = record {
    at = λ r. record { same = refl; forward = omega arith; inside = λ h. h };
  }

  StaysIn-if : (b : Bool) {m n : Read A} → StaysIn m → StaysIn n → StaysIn (if b then m else n)
  StaysIn-if true p q = p
  StaysIn-if false p q = q

  StaysIn-read_bytes : (try_into : List ℕ → Option A) (n : ℕ) → StaysIn (read_bytes try_into n)
  unfolding read_bytes
  StaysIn-read_bytes try_into n = record {
    at = λ r. record { same = ground arith; forward = ground arith; inside = λ h. ground arith };
  }

module _ {ℓ κ} {A : Type ℓ} {B : Type κ} where
  StaysIn-bind :
      {m : Read A} {f : A → Read B} → StaysIn m → ((a : A) → StaysIn (f a)) → StaysIn (m >>= f)
  StaysIn-bind {m} {f} p q = record { at = λ r. Later-trans (p.at r) (rest (m r).0 (m r).1) }
    where
      rest : (x : Result ReaderError A) (r' : Reader) → Later r' (continue x f r').1
      rest (ok a) r' = (q a).at r'
      rest (err e) r' = (StaysIn-fail {A = B} e).at r'

StaysIn-read_u8 : StaysIn read_u8
unfolding read_u8
StaysIn-read_u8 = record {
  at = λ r. record { same = ground arith; forward = ground arith; inside = λ h. ground arith };
}

StaysIn-read_bytes_ref : (n : ℕ) → StaysIn (read_bytes_ref n)
unfolding read_bytes_ref
StaysIn-read_bytes_ref n = record {
  at = λ r. record { same = ground arith; forward = ground arith; inside = λ h. ground arith };
}

ruleset stays_in = (
  StaysIn-pure, StaysIn-fail, StaysIn-if, StaysIn-bind, StaysIn-read_bytes, StaysIn-read_u8,
  StaysIn-read_bytes_ref,
)

StaysIn-read_number : (n : ℕ) → StaysIn (read_number n)
unfolding read_number
StaysIn-read_number n = search stays_in

StaysIn-read_string_with_size : (n : ℕ) → StaysIn (read_string_with_size n)
unfolding read_string_with_size
StaysIn-read_string_with_size n = search stays_in

StaysIn-read_bool : StaysIn read_bool
unfolding read_bool
StaysIn-read_bool = search stays_in

StaysIn-read_string : StaysIn read_string
unfolding read_string
StaysIn-read_string = search (stays_in, StaysIn-read_string_with_size)

StaysIn-read_optional_string : StaysIn read_optional_string
unfolding read_optional_string
StaysIn-read_optional_string = search (stays_in, StaysIn-read_string_with_size)

StaysIn-read_optional_non_zero_u8 : StaysIn read_optional_non_zero_u8
unfolding read_optional_non_zero_u8
StaysIn-read_optional_non_zero_u8 = search stays_in

-- Whatever the bytes and the place in them, none of the reader's reads, among them `read_bytes` into
-- any type, changes the bytes, moves back, or goes from a place inside the bytes to one behind their end, whether it succeeds or
-- fails.
pub reader-StaysIn :
    StaysIn read_u8
    × StaysIn read_bool
    × StaysIn read_hash
    × StaysIn read_bytes_64
    × StaysIn read_u16
    × StaysIn read_u32
    × StaysIn read_u64
    × StaysIn read_u128
    × StaysIn read_string
    × StaysIn read_optional_string
    × StaysIn read_optional_non_zero_u8
    × ((n : ℕ) → StaysIn (read_bytes_ref n))
    × ((n : ℕ) → StaysIn (read_string_with_size n))
    × ((A : Type 0) (try_into : List ℕ → Option A) (n : ℕ) → StaysIn (read_bytes try_into n))
unfolding read_hash read_bytes_32 read_bytes_64 read_u16 read_u32 read_u64 read_u128
reader-StaysIn = (
  StaysIn-read_u8,
  StaysIn-read_bool,
  StaysIn-read_bytes (array 32) 32,
  StaysIn-read_bytes (array 64) 64,
  StaysIn-read_number 2,
  StaysIn-read_number 4,
  StaysIn-read_number 8,
  StaysIn-read_number 16,
  StaysIn-read_string,
  StaysIn-read_optional_string,
  StaysIn-read_optional_non_zero_u8,
  StaysIn-read_bytes_ref,
  StaysIn-read_string_with_size,
  λ A. StaysIn-read_bytes,
)
