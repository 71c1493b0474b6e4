-- ===== src/Prelude/Results.antt =====
-- `Result<A, E>` of Rust, its `?` operator as a bind, and lookups in an association list.
use mathlib.Core.Path.{◌≡◌, refl, sym, subst}
use mathlib.Core.Logic.{◌⊎◌, inl, inr}
use mathlib.Core.Bool.{Bool, true, false}
use mathlib.Core.Option.{Option, none, some}
use xelis_blockchain.Prelude.Tests.{if◌then◌else◌}

pub data Result {ℓ} (E : Type 0) (A : Type ℓ) : Type ℓ where
  err : E → Result E A
  ok : A → Result E A

-- `ok_or_else`
abbrev pub ok_or {ℓ} : {E : Type 0} {A : Type ℓ} → E → Option A → Result E A
ok_or e none = err e
ok_or e (some a) = ok a

module _ {ℓ κ} {E : Type 0} {A : Type ℓ} {B : Type κ} where
  infixl 5 ◌>>=◌
  abbrev pub ◌>>=◌ : Result E A → (A → Result E B) → Result E B
  err e >>= next = err e
  ok value >>= next = next value

  -- The value of a bind that succeeds comes from values of both parts.
  pub >>=-eq-ok :
      (r : Result E A) (next : A → Result E B) {b : B}
      → (r >>= next) ≡ ok b
      → (value : A) × (r ≡ ok value) × (next value ≡ ok b)
  >>=-eq-ok (err e) next succeeds = cc
  >>=-eq-ok (ok value) next succeeds = (value, refl, succeeds)

pub ok_injective {ℓ} :
    {E : Type 0} {A : Type ℓ} {a b : A} {r : Result E A} → r ≡ ok a → r ≡ ok b → a ≡ b
ok_injective h k = cc (h, k)

-- The branch that a conditional takes.
pub if_cases {ℓ} :
    {A : Type ℓ} (b : Bool) {r s v : A}
    → (if b then r else s) ≡ v
    → ((b ≡ true) × (r ≡ v)) ⊎ ((b ≡ false) × (s ≡ v))
if_cases true h = inl (refl, h)
if_cases false h = inr (refl, h)

-- There is a result.
abbrev pub Returns {ℓ} : {E : Type 0} {A : Type ℓ} → Result E A → Type ℓ
Returns {A = A} r = (value : A) × (r ≡ ok value)

pub if_returns {ℓ} :
    {E : Type 0} {A : Type ℓ} (b : Bool) {r s : Result E A}
    → Returns r
    → Returns s
    → Returns (if b then r else s)
if_returns true h k = h
if_returns false h k = k

pub >>=_returns {ℓ κ} :
    {E : Type 0} {A : Type ℓ} {B : Type κ} {r : Result E A} {value : A} (next : A → Result E B)
    → r ≡ ok value
    → Returns (next value)
    → Returns (r >>= next)
>>=_returns next q h = subst (λ r. Returns (r >>= next)) (sym q) h

pub some_injective {ℓ} : {A : Type ℓ} {a b : A} → some a ≡ some b → a ≡ b
some_injective h = cc h
