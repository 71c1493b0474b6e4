-- ===== src/Serializer/Reader/Outcome.antt =====
-- What every value that a read returns satisfies, whatever the bytes: a rule for each way to build a
-- read.
use xelis_blockchain.Prelude.{◌≡◌, refl, subst, Bool, true, false, if◌then◌else◌}
use xelis_blockchain.Prelude.Results.{Result, ok}
use xelis_blockchain.Serializer.Reader.{Reader, ReaderError, Read, ◌>>=◌, bind-eq-ok, pure, fail}

pub record Ensures {ℓ} {A : Type ℓ} (P : A → Type 0) (m : Read A) : Type ℓ where
  pub value : (r : Reader) (a : A) → (m r).0 ≡ ok a → P a

ok_injective {ℓ} : {A : Type ℓ} (a b : A) → ◌≡◌ {A = Result ReaderError A} (ok a) (ok b) → a ≡ b
ok_injective a b p = cc

module _ {ℓ} {A : Type ℓ} {P : A → Type 0} where
  pub Ensures-pure : (a : A) → P a → Ensures P (pure a)
  Ensures-pure a p = record { value = λ r b e. subst P (ok_injective a b e) p }

  pub Ensures-fail : (x : ReaderError) → Ensures P (fail x)
  Ensures-fail x = record { value = λ r b e. cc }

  pub Ensures-if :
      (b : Bool) (m n : Read A)
      → (b ≡ true → Ensures P m)
      → (b ≡ false → Ensures P n)
      → Ensures P (if b then m else n)
  Ensures-if true m n p q = p refl
  Ensures-if false m n p q = q refl

module _ {ℓ κ} {A : Type ℓ} {B : Type κ} {P : B → Type 0} where
  -- Nothing is known of the first value.
  pub Ensures-then :
      (m : Read A) (f : A → Read B) → ((a : A) → Ensures P (f a)) → Ensures P (m >>= f)
  Ensures-then m f k = record {
    value = λ r b e. let (a, _, e') = bind-eq-ok m f r e in (k a).value (m r).1 b e';
  }

  pub Ensures-bind :
      (Q : A → Type 0) (m : Read A) (f : A → Read B)
      → Ensures Q m
      → ((a : A) → Q a → Ensures P (f a))
      → Ensures P (m >>= f)
  Ensures-bind Q m f h k = record {
    value =
        λ r b e. let (a, e₀, e₁) = bind-eq-ok m f r e in (k a (h.value r a e₀)).value (m r).1 b e₁;
  }
