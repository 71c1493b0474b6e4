-- ===== src/Serializer/Collections.antt =====
-- xelis_common/src/serializer/defaults.rs: the instances of `Serializer` for numbers, strings,
-- options, vectors and sets.
pub mod Lossless
pub mod Tips
use xelis_blockchain.Prelude.{
  ℕ, zero, suc, ◌+◌, ◌*◌, ◌/◌, ◌%◌, Bool, true, false, not, Option, none, some, List, [], ◌∷◌, ◌++◌,
  ltb, ◌==◌, if◌then◌else◌, length,
}
use xelis_blockchain.Prelude.Equality.{Eq, contains, bytes_eq}
use xelis_blockchain.Prelude.Results.{ok}
use xelis_blockchain.Serializer.Writer.{
  Writer, write_u8, write_u16, write_u32, write_u64, write_u128, write_bool, write_string,
  write_hash,
}
use xelis_blockchain.Serializer.Reader.{
  Read, invalid_size, ◌>>=◌, pure, fail, total_size, read_u8, read_u16, read_u32, read_u64,
  read_u128, read_bool, read_string, read_hash,
}
use xelis_blockchain.Serializer.Trait.{Serializer}

abbrev pub u8 : Serializer ℕ
u8 = record { write = write_u8; read = read_u8; size = λ _. 1 }

abbrev pub u16 : Serializer ℕ
u16 = record { write = write_u16; read = read_u16; size = λ _. 2 }

abbrev pub u32 : Serializer ℕ
u32 = record { write = write_u32; read = read_u32; size = λ _. 4 }

abbrev pub u64 : Serializer ℕ
u64 = record { write = write_u64; read = read_u64; size = λ _. 8 }

abbrev pub u128 : Serializer ℕ
u128 = record { write = write_u128; read = read_u128; size = λ _. 16 }

abbrev pub bool : Serializer Bool
bool = record { write = write_bool; read = read_bool; size = λ _. 1 }

-- A string is its bytes.
abbrev pub string : Serializer (List ℕ)
string = record { write = write_string; read = read_string; size = λ s. 1 + length s }

abbrev pub max_items : ℕ
max_items = 1024

abbrev pub hash_size : ℕ
hash_size = 32

module _ {ℓ} {A : Type ℓ} (s : Serializer A) where
  unfoldable pub write_option : Option A → Writer → Writer
  write_option none w = write_bool false w
  write_option (some value) w = s.write value (write_bool true w)

  unfoldable pub read_option : Read (Option A)
  read_option = do
    present ← read_bool
    if present then (do value ← s.read; pure (some value)) else pure none

  unfoldable pub size_option : Option A → ℕ
  size_option (some value) = 1 + s.size value
  size_option none = 1

  abbrev pub option : Serializer (Option A)
  option = record { write = write_option; read = read_option; size = size_option }

  -- `for el in self { el.write(writer) }`
  unfoldable pub write_items : List A → Writer → Writer
  write_items [] w = w
  write_items (el ∷ rest) w = write_items rest (s.write el w)

  -- `self.len() as u16` keeps the lowest 16 bits, as the two bytes that are written do.
  unfoldable pub write_vec : List A → Writer → Writer
  write_vec xs w = write_items xs (write_u16 (length xs) w)

  -- `for _ in 0..count { values.push(T::read(reader)?) }`
  unfoldable pub read_items : ℕ → Read (List A)
  read_items zero = pure []
  read_items (suc n) = do x ← s.read; xs ← read_items n; pure (x ∷ xs)

  unfoldable pub read_vec : Read (List A)
  read_vec = do
    count ← read_u16
    if ltb max_items count then fail invalid_size else read_items count

  -- The size of the first element, times the number of elements.
  unfoldable pub size_vec : List A → ℕ
  size_vec [] = 2
  size_vec (first ∷ rest) = 2 + length (first ∷ rest) * s.size first

  abbrev pub vec : Serializer (List A)
  vec = record { write = write_vec; read = read_vec; size = size_vec }

module _ {ℓ} {A : Type ℓ} ⦃e : Eq A⦄ (s : Serializer A) where
  -- `IndexSet::insert` appends a new value, and the read fails on one that is there.
  unfoldable pub read_set_items : ℕ → List A → Read (List A)
  read_set_items zero set = pure set
  read_set_items (suc n) set = do
    value ← s.read
    if contains value set then fail invalid_size else read_set_items n (set ++ value ∷ [])

  unfoldable pub read_index_set : Read (List A)
  read_index_set = do
    count ← read_u16
    if ltb max_items count then fail invalid_size else read_set_items count []

  -- An `IndexSet` in its order.
  abbrev pub index_set : Serializer (List A)
  index_set = record { write = write_vec s; read = read_index_set; size = size_vec s }

-- A `HashSet<Hash>`, in the order in which it is iterated. Inserting what is there changes nothing.
insert_hash : List ℕ → List (List ℕ) → List (List ℕ)
insert_hash hash tips = if contains hash tips then tips else tips ++ hash ∷ []

unfoldable pub write_tips : List (List ℕ) → Writer → Writer
write_tips [] w = w
write_tips (hash ∷ rest) w = write_tips rest (write_hash hash w)

read_tips_loop : ℕ → List (List ℕ) → Read (List (List ℕ))
unfolding insert_hash
read_tips_loop zero tips = pure tips
read_tips_loop (suc n) tips = do hash ← read_hash; read_tips_loop n (insert_hash hash tips)

read_tips_counted : ℕ → Read (List (List ℕ))
unfolding read_tips_loop
read_tips_counted count = do
  tips ← read_tips_loop count []
  if length tips == count then pure tips else fail invalid_size

unfoldable pub read_tips : Read (List (List ℕ))
unfolding read_tips_counted
read_tips r =
    if total_size r % hash_size == 0
    then read_tips_counted (total_size r / hash_size) r
    else fail invalid_size r

abbrev pub tips : Serializer (List (List ℕ))
tips = record { write = write_tips; read = read_tips; size = λ set. length set * hash_size }
