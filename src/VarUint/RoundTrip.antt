-- ===== src/VarUint/RoundTrip.antt =====
-- Every number of 256 bits is read back from its bytes.
use xelis_blockchain.Serializer.Trait.{to_bytes, IsLossless}
use xelis_blockchain.Prelude.Results.{ok}
use xelis_blockchain.Serializer.Reader.Position.{at, read_u8_at, read_bytes_ref_at}
use xelis_blockchain.Serializer.Reader.{read_bytes_ref}
use native.Mathlib.Nat.{mod-eq_of_lt}
use xelis_blockchain.Serializer.Writer.{write_bytes, write_u8, Writer}
use xelis_blockchain.Prelude.{
  lt→ltb, ge→ltb, ℕ, zero, suc, ◌-◌, ◌≤◌, ◌≡◌, refl, sym, ap, ◌∙◌, inl, inr, true, Option, none,
  some, List, [], ◌∷◌, ◌++◌, append_assoc, append-nil, arith, Bool-cases, get_elem?, take, length,
  if◌then◌else◌, ltb, ◌<◌, ◌%◌, subst, ge→ltb, ◌==◌,
}
use xelis_blockchain.Prelude.{replicate}
use xelis_blockchain.Serializer.Writer
use xelis_blockchain.VarUint.{
  trim, is_zero, U256, write_varuint, write_bytes_of, read_bytes_ref, read_varuint, varuint,
}

trim-le : (len : ℕ) (b : List ℕ) → trim len b ≤ len
unfolding trim
trim-le zero b = omega arith
trim-le (suc len) b = elim (Bool-cases (is_zero (get_elem? b len))) [
  | inl p ↦ rw p (omega (arith, trim-le len b))
  | inr p ↦ rw p (omega arith)
]

take_step : (b : List ℕ) (n x : ℕ) → get_elem? b n ≡ some x → take (suc n) b ≡ take n b ++ x ∷ []
take_step [] n x h = cc
take_step (y ∷ b) zero x h = cc h
take_step (y ∷ b) (suc n) x h = ap (λ t. y ∷ t) (take_step b n x h)

replicate_step : (n x : ℕ) → replicate n x ++ x ∷ [] ≡ replicate (suc n) x
replicate_step zero x = refl
replicate_step (suc n) x = ap (λ t. x ∷ t) (replicate_step n x)

zero_byte : (o : Option ℕ) → is_zero o ≡ true → o ≡ some 0
unfolding is_zero
zero_byte none h = cc
zero_byte (some x) h = ground (arith, h)

-- What is cut off are zeros.
trim_zeros :
    (len : ℕ) (b : List ℕ) → take (trim len b) b ++ replicate (len - trim len b) 0 ≡ take len b
unfolding trim
trim_zeros zero b = refl
trim_zeros (suc len) b = elim (Bool-cases (is_zero (get_elem? b len))) [
  | inl p ↦ rw p (
      ap (λ n. take (trim len b) b ++ replicate n 0) (one_more (trim len b) (trim-le len b))
      ∙ ap (λ t. take (trim len b) b ++ t) (sym (replicate_step (len - trim len b) 0))
      ∙ sym (append_assoc (take (trim len b) b) _ _)
      ∙ ap (λ t. t ++ 0 ∷ []) (trim_zeros len b)
      ∙ sym (take_step b len 0 (zero_byte (get_elem? b len) p)))
  | inr p ↦
      rw p (
        ap (λ n. take (suc len) b ++ replicate n 0) (none_left len) ∙ append-nil (take (suc len) b))
]
  where
    one_more : (n : ℕ) → n ≤ len → suc len - n ≡ suc (len - n)
    one_more n h = omega (arith, h)

    none_left : (n : ℕ) → suc n - suc n ≡ 0
    none_left n = omega arith

length-take_le : (n : ℕ) (b : List ℕ) → n ≤ length b → length (take n b) ≡ n
length-take_le zero b h = refl
length-take_le (suc n) [] h = omega (arith, h)
length-take_le (suc n) (x ∷ b) h = omega (arith, length-take_le n b (omega (arith, h)))

take_whole : (b : List ℕ) → take (length b) b ≡ b
take_whole [] = refl
take_whole (x ∷ b) = ap (λ t. x ∷ t) (take_whole b)

module _ (u : U256) where
  -- The number of the bytes that are written, and the bytes.
  kept : u.Value → ℕ
  kept v = trim 32 (u.to_big_endian v)

  layout : u.Value → List ℕ
  unfolding kept
  layout v = kept v ∷ take (kept v) (u.to_big_endian v)

  kept-le : (v : u.Value) → kept v ≤ 32
  unfolding kept
  kept-le v = trim-le 32 (u.to_big_endian v)

  -- The bytes that are kept, followed by zeros, are those of the number.
  restore :
      (v : u.Value)
      → take (kept v) (u.to_big_endian v) ++ replicate (32 - kept v) 0 ≡ u.to_big_endian v
  unfolding kept
  restore v =
      trim_zeros 32 (u.to_big_endian v)
      ∙ ap (λ n. take n (u.to_big_endian v)) (sym (u.length-to_big_endian v))
      ∙ take_whole (u.to_big_endian v)

  written :
      (n : ℕ) (b : List ℕ) (w : Writer)
      → n ≤ 32
      → (if ltb 0 n
          then write_bytes (take n b) (write_u8 (n % 256) w)
          else write_u8 (n % 256) w).bytes
        ≡ w.bytes ++ n ∷ take n b
  unfolding write_bytes write_u8
  written zero b w h = refl
  written (suc n) b w h =
      rw (mod-eq_of_lt (small n h), lt→ltb 0 (suc n) (omega arith))
        (append_assoc w.bytes (suc n ∷ []) (take (suc n) b))
    where
      small : (n : ℕ) → suc n ≤ 32 → suc n < 256
      small n h = omega (arith, h)

  write-layout : (v : u.Value) (w : Writer) → (write_varuint u v w).bytes ≡ w.bytes ++ layout v
  unfolding write_varuint write_bytes_of layout kept
  write-layout v w =
      rw (u.length-to_big_endian v) (written (kept v) (u.to_big_endian v) w (kept-le v))

  no_value : (v : u.Value) → kept v ≡ 0 → u.zero_value ≡ v
  no_value v h =
      sym u.from_big_endian_zero
      ∙ ap u.from_big_endian
          (sym (ap (λ n. take n (u.to_big_endian v) ++ replicate (32 - n) 0) h) ∙ restore v)
      ∙ u.from_big_endian-to_big_endian v

  read_kept :
      (v : u.Value) (pre rest : List ℕ)
      → read_bytes_ref (kept v) (at pre (take (kept v) (u.to_big_endian v) ++ rest)) ≡ (
        ok (take (kept v) (u.to_big_endian v)),
        at (pre ++ take (kept v) (u.to_big_endian v)) rest,
      )
  read_kept v pre rest =
      subst
        (λ n. read_bytes_ref n (at pre (take (kept v) (u.to_big_endian v) ++ rest)) ≡ (
          ok (take (kept v) (u.to_big_endian v)),
          at (pre ++ take (kept v) (u.to_big_endian v)) rest,
        ))
        (length-take_le (kept v) (u.to_big_endian v) (kept-bound v))
        (read_bytes_ref_at pre (take (kept v) (u.to_big_endian v)) rest)
    where
      kept-bound : (v : u.Value) → kept v ≤ length (u.to_big_endian v)
      kept-bound v = omega (arith, kept-le v, u.length-to_big_endian v)

  length-kept : (v : u.Value) → length (take (kept v) (u.to_big_endian v)) ≡ kept v
  length-kept v =
      length-take_le (kept v) (u.to_big_endian v)
        (omega (arith, kept-le v, u.length-to_big_endian v))

  zero_of : (n : ℕ) → (n == 0) ≡ true → n ≡ 0
  zero_of n p = ground (arith, p)

  read_layout :
      (v : u.Value) (pre rest : List ℕ)
      → read_varuint u (at pre (layout v ++ rest)) ≡ (ok v, at (pre ++ layout v) rest)
  unfolding read_varuint layout
  read_layout v pre rest =
      rw
        (
          read_u8_at (kept v) pre (take (kept v) (u.to_big_endian v) ++ rest),
          ge→ltb 32 (kept v) (kept-le v),
        )
        (elim (Bool-cases (kept v == 0)) [
          | inl p ↦ rw p (rw (zero_of (kept v) p) (rw (no_value v (zero_of (kept v) p)) refl))
          | inr p ↦ rw p (
              rw
                (
                  read_kept v (pre ++ kept v ∷ []) rest,
                  length-kept v,
                  restore v,
                  u.from_big_endian-to_big_endian v,
                  append_assoc pre (kept v ∷ []) (take (kept v) (u.to_big_endian v)),
                )
                refl)
        ])

  to_bytes-layout : (v : u.Value) → to_bytes (varuint u) v ≡ layout v
  unfolding Writer.new varuint
  to_bytes-layout v = write-layout v Writer.new

  -- If the 32 bytes of a number of 256 bits stand for it, and 32 zeros for zero, then a number is read back from the bytes that are written, without the zeros at their end, and these only follow what was written before.
  pub varuint-IsLossless : IsLossless (varuint u) (λ v. Unit {0})
  unfolding varuint
  varuint-IsLossless = record {
    appends = λ v w. write-layout v w ∙ ap (λ t. w.bytes ++ t) (sym (to_bytes-layout v));
    reads_back = λ v pre rest h. rw (to_bytes-layout v) (read_layout v pre rest);
  }
