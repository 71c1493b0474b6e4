-- ===== src/Serializer/Writer.antt =====
-- xelis_common/src/serializer/writer.rs
use xelis_blockchain.Prelude.{
  ℕ, ◌%◌, Bool, Option, none, some, List, [], ◌∷◌, ◌++◌, ◌==◌, if◌then◌else◌, length,
}
use xelis_blockchain.Serializer.Bytes.{to_be_bytes}

pub record Writer : Type 0 where
  pub bytes : List ℕ

unfoldable pub new : Writer
new = record { bytes = [] }

unfoldable pub write_bytes : List ℕ → Writer → Writer
write_bytes bytes w = record { bytes = w.bytes ++ bytes }

unfoldable pub write_hash : List ℕ → Writer → Writer
write_hash hash w = record { bytes = w.bytes ++ hash }

unfoldable pub write_bool : Bool → Writer → Writer
write_bool value w = record { bytes = w.bytes ++ (if value then 1 else 0) ∷ [] }

unfoldable pub write_u8 : ℕ → Writer → Writer
write_u8 value w = record { bytes = w.bytes ++ value ∷ [] }

unfoldable pub write_u16 : ℕ → Writer → Writer
write_u16 value w = record { bytes = w.bytes ++ to_be_bytes 2 value }

unfoldable pub write_u32 : ℕ → Writer → Writer
write_u32 value w = record { bytes = w.bytes ++ to_be_bytes 4 value }

unfoldable pub write_u64 : ℕ → Writer → Writer
write_u64 value w = record { bytes = w.bytes ++ to_be_bytes 8 value }

unfoldable pub write_u128 : ℕ → Writer → Writer
write_u128 value w = record { bytes = w.bytes ++ to_be_bytes 16 value }

-- `value.len() as u8` keeps the lowest byte of the length.
unfoldable pub write_string : List ℕ → Writer → Writer
write_string value w = record { bytes = (w.bytes ++ length value % 256 ∷ []) ++ value }

unfoldable pub write_optional_string : Option (List ℕ) → Writer → Writer
write_optional_string (some v) w = write_string v w
write_optional_string none w = record { bytes = w.bytes ++ 0 ∷ [] }

unfoldable pub write_optional_non_zero_u8 : Option ℕ → Writer → Writer
write_optional_non_zero_u8 (some v) w =
    if v == 0 then record { bytes = w.bytes ++ 0 ∷ [] } else record { bytes = w.bytes ++ v ∷ [] }
write_optional_non_zero_u8 none w = record { bytes = w.bytes ++ 0 ∷ [] }

unfoldable pub total_write : Writer → ℕ
total_write w = length w.bytes
