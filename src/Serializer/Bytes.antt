-- ===== src/Serializer/Bytes.antt =====
-- Bytes of the standard library: big-endian numbers (`to_be_bytes`, `from_be_bytes`) and the
-- validity of UTF-8 (`String::from_utf8`). A byte is a number below 256, a string its bytes.
use xelis_blockchain.Prelude.{
  ℕ, zero, suc, ◌+◌, ◌*◌, ◌/◌, ◌%◌, ◌^◌, ◌<◌, ◌≡◌, refl, ◌∙◌, Bool, true, false, ◌&&◌, Option, none,
  some, List, [], ◌∷◌, ◌++◌, arith, ltb, leb, ◌==◌, if◌then◌else◌, length, length-append, All,
  All-append, ◌-◌,
}
use mathlib.Core.List.{foldl, foldl-append}

abbrev pub IsByte : ℕ → Type 0
IsByte b = b < 256

unfoldable pub to_be_bytes : ℕ → ℕ → List ℕ
to_be_bytes zero v = []
to_be_bytes (suc n) v = to_be_bytes n (v / 256) ++ v % 256 ∷ []

unfoldable pub from_be_bytes : List ℕ → ℕ
from_be_bytes = foldl (λ acc b. acc * 256 + b) 0

pub length-to_be_bytes : (n v : ℕ) → length (to_be_bytes n v) ≡ n
unfolding to_be_bytes
length-to_be_bytes zero v = refl
length-to_be_bytes (suc n) v =
    omega (
      arith,
      length-append (to_be_bytes n (v / 256)) (v % 256 ∷ []),
      length-to_be_bytes n (v / 256),
    )

pub to_be_bytes-IsByte : (n v : ℕ) → All IsByte (to_be_bytes n v)
unfolding to_be_bytes
to_be_bytes-IsByte zero v = tt
to_be_bytes-IsByte (suc n) v =
    All-append IsByte (to_be_bytes n (v / 256)) (v % 256 ∷ []) (to_be_bytes-IsByte n (v / 256))
      (omega arith, tt)

div_fits : (n v : ℕ) → v < 256 ^ suc n → v / 256 < 256 ^ n
div_fits n v h = omega arith

-- A number that fits `n` bytes is read back from them.
pub from_be_bytes-to_be_bytes : (n v : ℕ) → v < 256 ^ n → from_be_bytes (to_be_bytes n v) ≡ v
unfolding to_be_bytes from_be_bytes
from_be_bytes-to_be_bytes zero v h = omega arith
from_be_bytes-to_be_bytes (suc n) v h =
    foldl-append _ 0 (to_be_bytes n (v / 256)) (v % 256 ∷ [])
    ∙ omega (arith, from_be_bytes-to_be_bytes n (v / 256) (div_fits n v h))

-- What the next byte of a sequence may be: how many bytes the character still has, and the
-- range of the first of them.
record Pending : Type 0 where
  left : ℕ
  lo : ℕ
  hi : ℕ

abbrev pending : ℕ → ℕ → ℕ → Option Pending
pending n l h = some (record { left = n; lo = l; hi = h })

utf8_start : ℕ → Option Pending
utf8_start b =
    if ltb b 0x80
    then pending 0 0 0
    else if leb 0xc2 b && leb b 0xdf
    then pending 1 0x80 0xbf
    else if b == 0xe0
    then pending 2 0xa0 0xbf
    else if b == 0xed
    then pending 2 0x80 0x9f
    else if leb 0xe1 b && leb b 0xef
    then pending 2 0x80 0xbf
    else if b == 0xf0
    then pending 3 0x90 0xbf
    else if leb 0xf1 b && leb b 0xf3
    then pending 3 0x80 0xbf
    else if b == 0xf4
    then pending 3 0x80 0x8f
    else none

utf8_next : Option Pending → ℕ → Option Pending
unfolding utf8_start
utf8_next none b = none
utf8_next (some p) b =
    if p.left == 0
    then utf8_start b
    else if leb p.lo b && leb b p.hi
    then pending (p.left - 1) 0x80 0xbf
    else none

utf8_end : Option Pending → Bool
utf8_end none = false
utf8_end (some p) = p.left == 0

-- Whether `String::from_utf8` accepts the bytes.
unfoldable pub is_utf8 : List ℕ → Bool
unfolding utf8_next utf8_end
is_utf8 bytes = utf8_end (foldl utf8_next (pending 0 0 0) bytes)

-- "é" is accepted; an overlong form and a cut sequence are not.
is_utf8_examples :
    (is_utf8 (0x68 ∷ 0xc3 ∷ 0xa9 ∷ []) ≡ true)
    × (is_utf8 (0xc0 ∷ 0x80 ∷ []) ≡ false)
    × (is_utf8 (0xe2 ∷ 0x82 ∷ []) ≡ false)
unfolding is_utf8
is_utf8_examples = (refl, refl, refl)
