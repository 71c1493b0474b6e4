-- ===== src/Serializer/Collections/Lossless.antt =====
-- The instances of defaults.rs lose nothing: what they write is read back.
use xelis_blockchain.Prelude.Equality.{IsDistinct, contains_before}
use xelis_blockchain.Prelude.Results.{err}
use native.Mathlib.Nat.{mod-eq_of_lt}
use xelis_blockchain.Prelude.{
  ℕ, ◌%◌, ◌≤◌, ◌<◌, ◌^◌, ◌≡◌, refl, ap, sym, ◌∙◌, List, [], ◌∷◌, ◌++◌, true, false, Option, none,
  some, length, arith, append_assoc, append-nil, All, ge→ltb, length-append, ◌*◌, lt→ltb,
}
use xelis_blockchain.Serializer.Bytes.{is_utf8, to_be_bytes, length-to_be_bytes}
use xelis_blockchain.Serializer.Writer
use xelis_blockchain.Serializer.Writer.{
  Writer, write_u8, write_u16, write_u64, write_bool, write_string,
}
use xelis_blockchain.Serializer.Reader.{read_string, invalid_size}
use xelis_blockchain.Serializer.Reader.Position.{
  read_u8_at, read_u16_at, read_u64_at, read_bool_at, read_string_with_size_at, at,
}
use xelis_blockchain.Serializer.Trait.{Serializer, IsLossless, to_bytes}
use xelis_blockchain.Serializer.Collections.{
  u64, bool, string, option, vec, write_option, read_option, write_vec, read_vec, write_items,
  read_items, max_items, ok, size_vec, Eq, read_set_items, read_index_set, index_set, invalid_size,
}

abbrev pub IsU64 : ℕ → Type 0
IsU64 v = v < 2 ^ 64

pub u64-IsLossless : IsLossless u64 IsU64
unfolding Writer.new write_u64
u64-IsLossless = record {
  appends = λ a w. refl;
  reads_back = λ a pre rest h. read_u64_at a pre rest h;
}

pub length-u64 : (v : ℕ) → length (to_bytes u64 v) ≡ 8
unfolding Writer.new write_u64
length-u64 v = length-to_be_bytes 8 v

pub bool-IsLossless : IsLossless bool (λ _. Unit {0})
unfolding Writer.new write_bool
bool-IsLossless = record {
  appends = λ a w. refl;
  reads_back = λ a pre rest h. read_bool_at a pre rest;
}

-- A string of less than 256 bytes of well-formed UTF-8 is read back, and its bytes only follow what was written before.
pub string-IsLossless : IsLossless string (λ s. (length s < 256) × (is_utf8 s ≡ true))
unfolding Writer.new write_string read_string
string-IsLossless = record {
  appends = λ a w. append_assoc w.bytes (length a % 256 ∷ []) a;
  reads_back = λ a pre rest h. rw (read_u8_at (length a % 256) pre (a ++ rest)) (
      rw (mod-eq_of_lt h.0) (
        rw (
          read_string_with_size_at (pre ++ length a ∷ []) a rest h.1,
          append_assoc pre (length a ∷ []) a,
        )));
}

module _ {ℓ} {A : Type ℓ} (s : Serializer A) {P : A → Type 0} (law : IsLossless s P) where
  abbrev pub Holds : Option A → Type 0
  Holds none = Unit {0}
  Holds (some a) = P a

  -- If the encoding of the element is read back, that of an optional element is, and its bytes only follow what was written before.
  pub option-IsLossless : IsLossless (option s) Holds
  unfolding Writer.new write_option read_option write_bool
  option-IsLossless = record {
    appends = elim [
      | none ↦ λ w. refl
      | some a ↦ λ w.
          law.appends a _
          ∙ append_assoc w.bytes _ _
          ∙ ap (λ t. w.bytes ++ t) (sym (law.appends a _))
    ];
    reads_back = elim [
      | none ↦ λ pre rest h. rw (read_bool_at false pre rest)
      | some a ↦ λ pre rest h. rw (law.appends a (record { bytes = 1 ∷ [] })) (
          rw (read_bool_at true pre (to_bytes s a ++ rest)) (
            rw (law.reads_back a (pre ++ 1 ∷ []) rest h, append_assoc pre (1 ∷ []) (to_bytes s a))))
    ];
  }

  -- The elements one after the other.
  encodings : List A → List ℕ
  encodings [] = []
  encodings (x ∷ xs) = to_bytes s x ++ encodings xs

  write_items-bytes :
      (xs : List A) (w : Writer) → (write_items s xs w).bytes ≡ w.bytes ++ encodings xs
  unfolding write_items encodings
  write_items-bytes [] w = sym (append-nil w.bytes)
  write_items-bytes (x ∷ xs) w =
      write_items-bytes xs (s.write x w)
      ∙ rw (law.appends x w) (append_assoc w.bytes (to_bytes s x) (encodings xs))

  read_items_at :
      (xs : List A) (pre rest : List ℕ)
      → All P xs
      → read_items s (length xs) (at pre (encodings xs ++ rest))
        ≡ (ok xs, at (pre ++ encodings xs) rest)
  unfolding read_items encodings
  read_items_at [] pre rest h = rw append-nil
  read_items_at (x ∷ xs) pre rest (h, hs) = rw (
    append_assoc (to_bytes s x) (encodings xs) rest,
    law.reads_back x pre (encodings xs ++ rest) h,
    read_items_at xs (pre ++ to_bytes s x) rest hs,
    append_assoc pre (to_bytes s x) (encodings xs),
  )

  vec-bytes :
      (xs : List A) (w : Writer)
      → (write_vec s xs w).bytes ≡ w.bytes ++ (to_be_bytes 2 (length xs) ++ encodings xs)
  unfolding write_vec write_u16
  vec-bytes xs w =
      simp write_items-bytes (append_assoc w.bytes (to_be_bytes 2 (length xs)) (encodings xs))

  -- If the encoding of the elements is read back, a vector of at most `MAX_ITEMS` elements is, and its bytes only follow what was written before.
  pub vec-IsLossless : IsLossless (vec s) (λ xs. (length xs ≤ max_items) × All P xs)
  unfolding Writer.new read_vec
  vec-IsLossless = record {
    appends = λ xs w. simp vec-bytes;
    reads_back = λ xs pre rest h. simp vec-bytes (
        rw (append_assoc (to_be_bytes 2 (length xs)) (encodings xs) rest) (
          rw (read_u16_at (length xs) pre (encodings xs ++ rest) (omega arith)) (
            rw
              (
                ge→ltb max_items (length xs) h.0,
                read_items_at xs (pre ++ to_be_bytes 2 (length xs)) rest h.1,
              )
              (simp append_assoc))));
  }

  size_items :
      (xs : List A) (n : ℕ)
      → All (λ x. length (to_bytes s x) ≡ n) xs
      → length (encodings xs) ≡ length xs * n
  unfolding encodings
  size_items [] n h = omega arith
  size_items (x ∷ xs) n (h, hs) =
      omega (arith, length-append (to_bytes s x) (encodings xs), size_items xs n hs)

  -- The size of a vector is the number of its bytes where all its elements take as many bytes as the size of the first.
  pub vec-size :
      (x : A) (xs : List A)
      → s.size x ≡ length (to_bytes s x)
      → All (λ y. length (to_bytes s y) ≡ s.size x) xs
      → (vec s).size (x ∷ xs) ≡ length (to_bytes (vec s) (x ∷ xs))
  unfolding Writer.new size_vec
  vec-size x xs h hs = simp vec-bytes (
      omega (
        arith,
        length-append (to_be_bytes 2 (length (x ∷ xs))) (encodings (x ∷ xs)),
        length-to_be_bytes 2 (length (x ∷ xs)),
        size_items (x ∷ xs) (s.size x) (sym h, hs),
      ))

  -- A vector with more elements than `MAX_ITEMS`, and fewer than 2 ^ 16, is written and refused by the read.
  pub vec_too_long :
      (xs : List A) (pre rest : List ℕ)
      → max_items < length xs
      → length xs < 2 ^ 16
      → (read_vec s (at pre (to_bytes (vec s) xs ++ rest))).0 ≡ err invalid_size
  unfolding Writer.new read_vec
  vec_too_long xs pre rest h k = simp vec-bytes (
      rw (append_assoc (to_be_bytes 2 (length xs)) (encodings xs) rest) (
        rw (read_u16_at (length xs) pre (encodings xs ++ rest) k)
          (rw (lt→ltb max_items (length xs) h) refl)))

module _ {ℓ} {A : Type ℓ} ⦃e : Eq A⦄ (s : Serializer A) {P : A → Type 0}
    (law : IsLossless s P) where
  read_set_items_at :
      (xs acc : List A) (pre rest : List ℕ)
      → All P xs
      → IsDistinct (acc ++ xs)
      → read_set_items s (length xs) acc (at pre (encodings s law xs ++ rest))
        ≡ (ok (acc ++ xs), at (pre ++ encodings s law xs) rest)
  unfolding read_set_items encodings
  read_set_items_at [] acc pre rest h d = simp append-nil
  read_set_items_at (x ∷ xs) acc pre rest (h, hs) d =
      rw
        (
          append_assoc (to_bytes s x) (encodings s law xs) rest,
          law.reads_back x pre (encodings s law xs ++ rest) h,
          contains_before acc x xs d,
        )
        (rw (
          read_set_items_at xs (acc ++ x ∷ []) (pre ++ to_bytes s x) rest hs (rw append_assoc d),
          append_assoc pre (to_bytes s x) (encodings s law xs),
          append_assoc acc (x ∷ []) xs,
        ))

  -- If the encoding of the elements is read back, an index set of at most `MAX_ITEMS` distinct elements is, in its order, and its bytes only follow what was written before.
  pub index_set-IsLossless :
      IsLossless (index_set s) (λ xs. (length xs ≤ max_items) × All P xs × IsDistinct xs)
  unfolding Writer.new read_index_set
  index_set-IsLossless = record {
    appends = λ xs w. simp (vec-bytes s law);
    reads_back = λ xs pre rest h. simp (vec-bytes s law) (
        rw (append_assoc (to_be_bytes 2 (length xs)) (encodings s law xs) rest) (
          rw (read_u16_at (length xs) pre (encodings s law xs ++ rest) (omega arith)) (
            rw
              (
                ge→ltb max_items (length xs) h.0,
                read_set_items_at xs [] (pre ++ to_be_bytes 2 (length xs)) rest h.1 h.2,
              )
              (simp append_assoc))));
  }
