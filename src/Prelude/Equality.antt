-- ===== src/Prelude/Equality.antt =====
-- Equality of keys and hashes as an interface, and the membership test of sets that are lists.
use Prim.Native.Nat.{ℕ}
use mathlib.Core.Path.{◌≡◌, refl, subst}
use mathlib.Core.Logic.{◌↔◌}
use mathlib.Core.Bool.{Bool, true, false, ◌&&◌, ◌||◌}
use mathlib.Core.List.{List, [], ◌∷◌, ◌++◌}
use native.Mathlib.Omega.{arith}
use xelis_blockchain.Prelude.Tests.{◌==◌ as nat_beq, ==_iff}

-- The `Eq` of the source, with what its users rely on.
pub record Eq {ℓ} (A : Type ℓ) : Type ℓ where
  pub beq : A → A → Bool
  pub beq_iff : (x y : A) → (beq x y ≡ true) ↔ (x ≡ y)

module _ {ℓ} {A : Type ℓ} (e : Eq A) where
  pub beq_refl : (a : A) → e.beq a a ≡ true
  beq_refl a = (e.beq_iff a a).1 refl

module _ {ℓ} {A : Type ℓ} ⦃e : Eq A⦄ where
  abbrev pub contains : A → List A → Bool
  contains a [] = false
  contains a (x ∷ xs) = e.beq x a || contains a xs

  -- No element stands twice, as in a set.
  abbrev pub IsDistinct : List A → Type 0
  IsDistinct [] = Unit {0}
  IsDistinct (x ∷ xs) = (contains x xs ≡ false) × IsDistinct xs

  pub contains-append :
      (a : A) (xs ys : List A) → contains a (xs ++ ys) ≡ contains a xs || contains a ys
  contains-append a [] ys = refl
  contains-append a (x ∷ xs) ys = ground (arith, contains-append a xs ys)

instance abbrev pub nat_eq : Eq ℕ
nat_eq = record { beq = nat_beq; beq_iff = ==_iff }

-- `Vec<u8>` and `[u8; N]` are compared byte by byte.
unfoldable pub list_beq : List ℕ → List ℕ → Bool
list_beq [] [] = true
list_beq (x ∷ xs) (y ∷ ys) = nat_beq x y && list_beq xs ys
list_beq _ _ = false

list_beq_refl : (xs : List ℕ) → list_beq xs xs ≡ true
unfolding list_beq
list_beq_refl [] = refl
list_beq_refl (x ∷ xs) = ground (arith, list_beq_refl xs)

list_beq→eq : (xs ys : List ℕ) → list_beq xs ys ≡ true → xs ≡ ys
unfolding list_beq
list_beq→eq [] [] h = refl
list_beq→eq [] (y ∷ ys) h = cc
list_beq→eq (x ∷ xs) [] h = cc
list_beq→eq (x ∷ xs) (y ∷ ys) h = ground (arith, list_beq→eq xs ys)

pub list_beq_iff : (xs ys : List ℕ) → (list_beq xs ys ≡ true) ↔ (xs ≡ ys)
list_beq_iff xs ys =
    (list_beq→eq xs ys, λ p. subst (λ zs. list_beq xs zs ≡ true) p (list_beq_refl xs))

instance abbrev pub bytes_eq : Eq (List ℕ)
unfolding list_beq
bytes_eq = record { beq = list_beq; beq_iff = list_beq_iff }

module _ {ℓ} {A : Type ℓ} ⦃e : Eq A⦄ where
  -- In a list with no element twice, the one behind `acc` does not stand in `acc`.
  pub contains_before :
      (acc : List A) (x : A) (xs : List A) → IsDistinct (acc ++ x ∷ xs) → contains x acc ≡ false
  contains_before [] x xs h = refl
  contains_before (a ∷ acc) x xs (h, hs) = ground (
    arith,
    e.beq_iff a x,
    e.beq_iff x a,
    contains-append a acc (x ∷ xs),
    contains_before acc x xs hs,
  )

  pub IsDistinct-append :
      (acc : List A) (x : A) → IsDistinct acc → contains x acc ≡ false → IsDistinct (acc ++ x ∷ [])
  IsDistinct-append [] x d c = (refl, tt)
  IsDistinct-append (a ∷ acc) x (n, d) c = (
    ground (arith, contains-append a acc (x ∷ []), e.beq_iff a x, e.beq_iff x a),
    IsDistinct-append acc x d (ground arith),
  )
