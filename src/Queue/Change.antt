-- ===== src/Queue/Change.antt =====
-- What is written through `get_mut` of xelis_common/src/queue.rs, and `clear` and `len`.
use xelis_blockchain.Prelude.{
  ℕ, ◌<◌, ◌≡◌, refl, sym, ap, ◌∙◌, subst, inl, inr, true, false, Option, none, some, List, [], ◌∷◌,
  arith, ◌==◌, Bool-cases, Option-cases, length, All,
}
use xelis_blockchain.Prelude.Equality.{Eq}
use xelis_blockchain.Queue
use xelis_blockchain.Queue.{Arc, Queue, find_key, modify_address, get_mut, get_mut_at, len}
use xelis_blockchain.Queue.Valid.{arcs, Apart, IsAfter, IsValid, find_key_hit, find_key_skip}
use xelis_blockchain.Queue.Ordered.{change}
use xelis_blockchain.Queue.Refines.{entries, found-All}

module _ {K V : Type 0} where
  modify_skip :
      (n : ℕ) (f : V → V) (a : Arc K) (value : V) (rest : List (Arc K × V))
      → a.address < n
      → modify_address n f ((a, value) ∷ rest) ≡ (a, value) ∷ modify_address n f rest
  unfolding modify_address
  modify_skip n f a value rest h = ground (arith, h)

  modify_hit :
      (f : V → V) (a : Arc K) (value : V) (rest : List (Arc K × V))
      → modify_address a.address f ((a, value) ∷ rest) ≡ (a, f value) ∷ rest
  unfolding modify_address
  modify_hit f a value rest = ground arith

  arcs-modify_address :
      (n : ℕ) (f : V → V) (o : List (Arc K × V)) → arcs (modify_address n f o) ≡ arcs o
  unfolding arcs modify_address
  arcs-modify_address n f [] = refl
  arcs-modify_address n f ((a, value) ∷ rest) = elim (Bool-cases (a.address == n)) [
    | inl p ↦ rw p refl
    | inr p ↦ rw p (ap (λ t. a ∷ t) (arcs-modify_address n f rest))
  ]

module _ {K V : Type 0} ⦃e : Eq K⦄ where
  modify_found : Option (Arc K) → (V → V) → List (Arc K × V) → List (Arc K × V)
  modify_found none f o = o
  modify_found (some a) f o = modify_address a.address f o

  modify_found_skip :
      (key : K) (f : V → V) (a : Arc K) (value : V) (rest : List (Arc K × V))
      → All (IsAfter a) (arcs rest)
      → modify_found (find_key key (arcs rest)) f ((a, value) ∷ rest)
        ≡ (a, value) ∷ modify_found (find_key key (arcs rest)) f rest
  unfolding modify_found
  modify_found_skip key f a value rest h = elim (Option-cases (find_key key (arcs rest))) [
    | inl q ↦ rw q refl
    | inr (b, q) ↦
        rw q (modify_skip b.address f a value rest (found-All (IsAfter a) key (arcs rest) b q h).1)
  ]

  change_hit :
      (key k : K) (f : V → V) (value : V) (xs : List (K × V))
      → e.beq k key ≡ true
      → change key f ((k, value) ∷ xs) ≡ (k, f value) ∷ xs
  unfolding change
  change_hit key k f value xs p = rw p refl

  change_skip :
      (key k : K) (f : V → V) (value : V) (xs : List (K × V))
      → e.beq k key ≡ false
      → change key f ((k, value) ∷ xs) ≡ (k, value) ∷ change key f xs
  unfolding change
  change_skip key k f value xs p = rw p refl

  found-change :
      (key : K) (f : V → V) (o : List (Arc K × V))
      → Apart (arcs o)
      → entries (modify_found (find_key key (arcs o)) f o) ≡ change key f (entries o)
  unfolding arcs entries modify_found change find_key
  found-change key f [] h = refl
  found-change key f ((a, value) ∷ rest) (h, hs) = elim (Bool-cases (e.beq a.value key)) [
    | inl p ↦ rw (find_key_hit key a (arcs rest) p) (
        ap entries (modify_hit f a value rest)
        ∙ sym (change_hit key a.value f value (entries rest) p))
    | inr p ↦ rw (find_key_skip key a (arcs rest) p) (
        ap entries (modify_found_skip key f a value rest h)
        ∙ ap (λ t. (a.value, value) ∷ t) (found-change key f rest hs)
        ∙ sym (change_skip key a.value f value (entries rest) p))
  ]

  get_mut_at-order :
      (found : Option (Arc K)) (f : V → V) (q : Queue K V)
      → get_mut_at found f q ≡ record q { order = modify_found found f q.order }
  unfolding get_mut_at modify_found
  get_mut_at-order none f q = refl
  get_mut_at-order (some a) f q = refl

  pub get_mut-change :
      (key : K) (f : V → V) (q : Queue K V)
      → IsValid q
      → entries (get_mut key f q).order ≡ change key f (entries q.order)
  unfolding get_mut
  get_mut-change key f q v =
      ap (λ t. entries t.order) (get_mut_at-order (find_key key q.keys) f q)
      ∙ ap (λ ks. entries (modify_found (find_key key ks) f q.order)) v.synced
      ∙ found-change key f q.order (subst Apart v.synced v.apart)

  arcs-modify_found :
      (found : Option (Arc K)) (f : V → V) (o : List (Arc K × V))
      → arcs (modify_found found f o) ≡ arcs o
  unfolding modify_found
  arcs-modify_found none f o = refl
  arcs-modify_found (some a) f o = arcs-modify_address a.address f o

  pub get_mut-IsValid :
      (key : K) (f : V → V) (q : Queue K V) → IsValid q → IsValid (get_mut key f q)
  unfolding get_mut
  get_mut-IsValid key f q v = subst IsValid (sym (get_mut_at-order _ f q)) (record {
    synced = v.synced ∙ sym (arcs-modify_found (find_key key q.keys) f q.order);
    apart = v.apart;
    fresh = v.fresh;
  })

  pub clear-IsValid : (q : Queue K V) → IsValid (Queue.clear q)
  unfolding Queue.clear arcs
  clear-IsValid q = record { synced = refl; apart = tt; fresh = tt }

  pub length-entries : (q : Queue K V) → len q ≡ length (entries q.order)
  unfolding len entries
  length-entries q = count q.order
    where
      count : (o : List (Arc K × V)) → length o ≡ length (entries o)
      count [] = refl
      count ((a, value) ∷ rest) = omega (arith, count rest)
