-- ===== src/Serializer/Trait.antt =====
-- xelis_common/src/serializer/mod.rs: the trait `Serializer`, and what its users rely on as laws.
use xelis_blockchain.Prelude.{ℕ, ◌≡◌, List, [], ◌++◌, length, append-nil, ap, subst}
use xelis_blockchain.Prelude.Results.{Result, ok}
use xelis_blockchain.Serializer.Writer
use xelis_blockchain.Serializer.Writer.{Writer, total_write}
use xelis_blockchain.Serializer.Reader
use xelis_blockchain.Serializer.Reader.{Reader, ReaderError, Read}
use xelis_blockchain.Serializer.Reader.Position.{at}

pub record Serializer {ℓ} (A : Type ℓ) : Type ℓ where
  pub write : A → Writer → Writer
  pub read : Read A
  pub size : A → ℕ

module _ {ℓ} {A : Type ℓ} (s : Serializer A) where
  abbrev pub to_bytes : A → List ℕ
  unfolding Writer.new
  to_bytes a = (s.write a Writer.new).bytes

  abbrev pub from_bytes : List ℕ → Result ReaderError A
  from_bytes bytes = (s.read (Reader.new bytes)).0

  -- The provided method `size`, which an implementation may replace.
  abbrev pub default_size : A → ℕ
  default_size a = total_write (s.write a Writer.new)

  -- A write appends, and a read at the place of what was written returns the value and moves
  -- behind it, whatever stands around.
  pub record IsLossless {κ} (P : A → Type κ) : Type (ℓ ⊔ κ) where
    pub appends : (a : A) (w : Writer) → (s.write a w).bytes ≡ w.bytes ++ to_bytes a
    pub reads_back :
        (a : A) (pre rest : List ℕ)
        → P a
        → s.read (at pre (to_bytes a ++ rest)) ≡ (ok a, at (pre ++ to_bytes a) rest)

  -- `size` is the number of bytes that are written.
  pub record IsSized {κ} (P : A → Type κ) : Type (ℓ ⊔ κ) where
    pub sized : (a : A) → P a → s.size a ≡ length (to_bytes a)

  module _ {κ} {P : A → Type κ} (law : IsLossless P) where
    pub from_bytes-to_bytes : (a : A) → P a → from_bytes (to_bytes a) ≡ ok a
    unfolding Reader.new
    from_bytes-to_bytes a h =
        ap (λ p. p.0)
          (subst (λ bytes. s.read (at [] bytes) ≡ (ok a, at (to_bytes a) []))
            (append-nil (to_bytes a)) (law.reads_back a [] [] h))
