-- ===== src/VarUint.antt =====
-- xelis_common/src/varuint.rs: the bytes of a number of 256 bits.
-- `U256` of the crate `primitive-types` is an argument.
pub mod RoundTrip
use xelis_blockchain.Prelude.{
  ℕ, zero, suc, ◌+◌, ◌-◌, ◌*◌, ◌/◌, ◌%◌, ◌^◌, ◌≤◌, ◌<◌, ◌≡◌, refl, sym, ap, ◌∙◌, subst, ◌≢◌, ◌↔◌,
  ◌⊎◌, inl, inr, Bool, true, false, not, ◌&&◌, ◌||◌, Option, none, some, List, [], ◌∷◌, ◌++◌, map,
  append_assoc, append-nil, arith, ltb, leb, ◌==◌, if◌then◌else◌, Bool-cases, Option-cases, length,
  get_elem?, take, drop, All, length-append,
}
use xelis_blockchain.Prelude.{replicate}
use xelis_blockchain.Serializer.Writer
use xelis_blockchain.Serializer.Writer.{Writer, total_write, write_u8, write_bytes}
use xelis_blockchain.Serializer.Reader.{
  Read, invalid_size, ◌>>=◌, pure, fail, read_u8, read_bytes_ref,
}
use xelis_blockchain.Serializer.Trait.{Serializer}

-- What the code uses of `U256`: its 32 bytes, and the number that they stand for.
pub record U256 : Type 1 where
  pub Value : Type 0
  pub zero_value : Value
  pub to_big_endian : Value → List ℕ
  pub from_big_endian : List ℕ → Value
  pub length-to_big_endian : (v : Value) → length (to_big_endian v) ≡ 32
  pub from_big_endian-to_big_endian : (v : Value) → from_big_endian (to_big_endian v) ≡ v
  pub from_big_endian_zero : from_big_endian (replicate 32 0) ≡ zero_value

abbrev pub max_varuint_size : ℕ
max_varuint_size = 32

is_zero : Option ℕ → Bool
is_zero none = false
is_zero (some byte) = byte == 0

-- `while len > 0 && buffer[len - 1] == 0 { len -= 1 }`
unfoldable pub trim : ℕ → List ℕ → ℕ
unfolding is_zero
trim zero buffer = 0
trim (suc len) buffer =
    let shorter = trim len buffer in if is_zero (get_elem? buffer len) then shorter else suc len

module _ (u : U256) where
  write_bytes_of : List ℕ → Writer → Writer
  write_bytes_of buffer w =
      let len = trim (length buffer) buffer in
      if ltb 0 len
      then write_bytes (take len buffer) (write_u8 (len % 256) w)
      else write_u8 (len % 256) w

  unfoldable pub write_varuint : u.Value → Writer → Writer
  unfolding write_bytes_of
  write_varuint v w = write_bytes_of (u.to_big_endian v) w

  -- The bytes that are read stand in front of zeros.
  unfoldable pub read_varuint : Read u.Value
  read_varuint = do
    len ← read_u8
    if ltb max_varuint_size len
        then fail invalid_size
        else if len == 0
        then pure u.zero_value
        else (do
          bytes ← read_bytes_ref len
          pure (u.from_big_endian (bytes ++ replicate (32 - length bytes) 0)))

  abbrev pub varuint : Serializer u.Value
  unfolding Writer.new
  varuint = record {
    write = write_varuint;
    read = read_varuint;
    size = λ v. total_write (write_varuint v Writer.new);
  }
