-- ===== src/Queue/Refines.antt =====
-- The operations of the queue are those of an ordered list of keys and values.
use xelis_blockchain.Prelude.{
  ℕ, ◌<◌, ◌≡◌, refl, sym, ap, ◌∙◌, subst, inl, inr, true, false, Option, none, some, List, [], ◌∷◌,
  ◌++◌, arith, Bool-cases, Option-cases, All,
}
use xelis_blockchain.Prelude.Equality.{Eq}
use xelis_blockchain.Queue.{Arc, Queue, find_key, find_address, get, has, get_at, is_some}
use xelis_blockchain.Queue.Valid.{arcs, Apart, IsAfter, IsValid, find_key_hit, find_key_skip}
use xelis_blockchain.Queue.Ordered.{lookup, member}

unfoldable pub entries : {K V : Type 0} → List (Arc K × V) → List (K × V)
entries [] = []
entries ((a, value) ∷ rest) = (a.value, value) ∷ entries rest

pub entries-append :
    {K V : Type 0} (xs ys : List (Arc K × V)) → entries (xs ++ ys) ≡ entries xs ++ entries ys
unfolding entries
entries-append [] ys = refl
entries-append ((a, value) ∷ xs) ys = ap (λ t. (a.value, value) ∷ t) (entries-append xs ys)

module _ {K : Type 0} ⦃e : Eq K⦄ where
  pub found-All :
      (P : Arc K → Type 0) (key : K) (ps : List (Arc K)) (b : Arc K)
      → find_key key ps ≡ some b
      → All P ps
      → P b
  unfolding find_key
  found-All P key [] b h k = cc
  found-All P key (a ∷ ps) b h (k, ks) = elim (Bool-cases (e.beq a.value key)) [
    | inl p ↦ subst P (cc (h, find_key_hit key a ps p)) k
    | inr p ↦ found-All P key ps b (sym (find_key_skip key a ps p) ∙ h) ks
  ]

module _ {K V : Type 0} ⦃e : Eq K⦄ where
  find_key-member :
      (key : K) (o : List (Arc K × V)) → is_some (find_key key (arcs o)) ≡ member key (entries o)
  unfolding arcs entries member find_key is_some
  find_key-member key [] = refl
  find_key-member key ((a, value) ∷ rest) = elim (Bool-cases (e.beq a.value key)) [
    | inl p ↦ ground (arith, p)
    | inr p ↦ ground (arith, p, find_key-member key rest)
  ]

  pub has-member : (key : K) (q : Queue K V) → IsValid q → has key q ≡ member key (entries q.order)
  unfolding has
  has-member key q v = ap (λ ks. is_some (find_key key ks)) v.synced ∙ find_key-member key q.order

  find_address_skip :
      (n : ℕ) (a : Arc K) (value : V) (rest : List (Arc K × V))
      → a.address < n
      → find_address n ((a, value) ∷ rest) ≡ find_address n rest
  unfolding find_address
  find_address_skip n a value rest h = ground arith

  find_address_hit :
      (a : Arc K) (value : V) (rest : List (Arc K × V))
      → find_address a.address ((a, value) ∷ rest) ≡ some value
  unfolding find_address
  find_address_hit a value rest = ground arith

  lookup_found : (found : Option (Arc K)) → List (Arc K × V) → Option V
  lookup_found none o = none
  lookup_found (some a) o = find_address a.address o

  lookup_found_skip :
      (key : K) (a : Arc K) (value : V) (rest : List (Arc K × V))
      → All (IsAfter a) (arcs rest)
      → lookup_found (find_key key (arcs rest)) ((a, value) ∷ rest)
        ≡ lookup_found (find_key key (arcs rest)) rest
  unfolding lookup_found
  lookup_found_skip key a value rest h = elim (Option-cases (find_key key (arcs rest))) [
    | inl q ↦ rw q refl
    | inr (b, q) ↦
        rw q
          (find_address_skip b.address a value rest (found-All (IsAfter a) key (arcs rest) b q h).1)
  ]

  lookup_skip :
      (key : K) (k : K) (value : V) (xs : List (K × V))
      → e.beq k key ≡ false
      → lookup key ((k, value) ∷ xs) ≡ lookup key xs
  unfolding lookup
  lookup_skip key k value xs p = rw p refl

  lookup_hit :
      (key : K) (k : K) (value : V) (xs : List (K × V))
      → e.beq k key ≡ true
      → lookup key ((k, value) ∷ xs) ≡ some value
  unfolding lookup
  lookup_hit key k value xs p = rw p refl

  found_lookup :
      (key : K) (o : List (Arc K × V))
      → Apart (arcs o)
      → lookup_found (find_key key (arcs o)) o ≡ lookup key (entries o)
  unfolding arcs entries lookup_found lookup find_key
  found_lookup key [] h = refl
  found_lookup key ((a, value) ∷ rest) (h, hs) = elim (Bool-cases (e.beq a.value key)) [
    | inl p ↦
        rw (find_key_hit key a (arcs rest) p)
          (find_address_hit a value rest ∙ sym (lookup_hit key a.value value (entries rest) p))
    | inr p ↦
        rw (find_key_skip key a (arcs rest) p, lookup_skip key a.value value (entries rest) p)
          (lookup_found_skip key a value rest h ∙ found_lookup key rest hs)
  ]

  get_found : (o : Option (Arc K)) (q : Queue K V) → get_at o q ≡ lookup_found o q.order
  unfolding get_at lookup_found
  get_found none q = refl
  get_found (some a) q = refl

  pub get-lookup : (key : K) (q : Queue K V) → IsValid q → get key q ≡ lookup key (entries q.order)
  unfolding get
  get-lookup key q v =
      get_found (find_key key q.keys) q
      ∙ ap (λ ks. lookup_found (find_key key ks) q.order) v.synced
      ∙ found_lookup key q.order (subst Apart v.synced v.apart)
