-- ===== src/Tests/Numbers.antt =====
-- The bytes of a number of 256 bits, with two numbers: zero, and the one whose greatest byte is 1.
use xelis_blockchain.Prelude.{ℕ, ◌≡◌, refl, Bool, true, false, List, [], ◌∷◌, ◌==◌, length}
use xelis_blockchain.Prelude.{replicate}
use xelis_blockchain.Prelude.Results.{ok}
use xelis_blockchain.Serializer.Trait.{IsLossless, from_bytes, to_bytes, from_bytes-to_bytes}
use xelis_blockchain.VarUint.{U256, varuint}
use xelis_blockchain.VarUint.RoundTrip.{varuint-IsLossless}

abbrev bytes_of : Bool → List ℕ
bytes_of false = replicate 32 0
bytes_of true = 1 ∷ replicate 31 0

abbrev first_is_one : List ℕ → Bool
first_is_one [] = false
first_is_one (x ∷ rest) = x == 1

length-bytes_of : (v : Bool) → length (bytes_of v) ≡ 32
length-bytes_of false = refl
length-bytes_of true = refl

first_is_one-bytes_of : (v : Bool) → first_is_one (bytes_of v) ≡ v
first_is_one-bytes_of false = refl
first_is_one-bytes_of true = refl

abbrev two_numbers : U256
two_numbers = record {
  Value = Bool;
  zero_value = false;
  to_big_endian = bytes_of;
  from_big_endian = first_is_one;
  length-to_big_endian = length-bytes_of;
  from_big_endian-to_big_endian = first_is_one-bytes_of;
  from_big_endian_zero = refl;
}

varuint-IsLossless_example : IsLossless (varuint two_numbers) (λ v. Unit {0})
varuint-IsLossless_example = varuint-IsLossless two_numbers

-- The greater number takes two bytes.
two_bytes : from_bytes (varuint two_numbers) (to_bytes (varuint two_numbers) true) ≡ ok true
two_bytes = from_bytes-to_bytes (varuint two_numbers) (varuint-IsLossless two_numbers) true tt
