-- ===== src/Tests/Serializer.antt =====
-- The serializer at concrete inputs.
use xelis_blockchain.Prelude.{
  ℕ, ◌≤◌, ◌≡◌, refl, some, List, [], ◌∷◌, ◌++◌, arith, length, All, replicate,
}
use xelis_blockchain.Prelude.Results.{ok, err}
use xelis_blockchain.Prelude.Equality.{nat_eq, bytes_eq, list_beq}
use xelis_blockchain.Serializer.Reader.{invalid_size}
use xelis_blockchain.Serializer.Reader.Position.{at}
use xelis_blockchain.Serializer.Trait.{to_bytes, from_bytes, from_bytes-to_bytes, IsLossless}
use xelis_blockchain.Serializer.Collections.{u64, option, vec, tips, read_vec, max_items}
use xelis_blockchain.Serializer.Collections.Lossless.{
  IsU64, u64-IsLossless, vec-IsLossless, option-IsLossless, vec_too_long,
}
use xelis_blockchain.Serializer.Collections.Tips.{tips_round_trip}

abbrev numbers : List ℕ
numbers = 3 ∷ 500 ∷ 2 ∷ []

vec_law : IsLossless (vec u64) (λ xs. (length xs ≤ max_items) × All IsU64 xs)
vec_law = vec-IsLossless u64 u64-IsLossless

-- The laws compose: an optional vector of numbers comes back from its bytes.
option-vec-round_trip :
    from_bytes (option (vec u64)) (to_bytes (option (vec u64)) (some numbers)) ≡ ok (some numbers)
option-vec-round_trip =
    from_bytes-to_bytes (option (vec u64)) (option-IsLossless (vec u64) vec_law) (some numbers)
      (omega arith)

abbrev two_tips : List (List ℕ)
two_tips = replicate 32 1 ∷ replicate 32 2 ∷ []

tips_round_trip_example : from_bytes tips (to_bytes tips two_tips) ≡ ok two_tips
unfolding list_beq
tips_round_trip_example = tips_round_trip two_tips (omega arith) (refl, (refl, tt))

vec_too_long_example :
    (read_vec u64 (at [] (to_bytes (vec u64) (replicate 1025 7) ++ []))).0 ≡ err invalid_size
vec_too_long_example =
    vec_too_long u64 u64-IsLossless (replicate 1025 7) [] [] (omega arith) (omega arith)
