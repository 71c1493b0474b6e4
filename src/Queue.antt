-- ===== src/Queue.antt =====
-- xelis_common/src/queue.rs: a queue with a set of its keys.
-- An `Arc` is its address and its value; two are the same pointer where the addresses are equal. The
-- allocator gives a new address each time. A `HashSet` is a list whose order is never read. The
-- users of the queue keep no clone of an `Arc`, so `Arc::try_unwrap` does not fail. The closure of
-- `extract_if` is a function of the entry, without a state of its own, and what is done through the
-- reference of `get_mut` is a function of the value.
pub mod Valid
pub mod Ordered
pub mod Refines
pub mod Change
pub mod Calls
pub mod Runs
use xelis_blockchain.Prelude.{
  ℕ, zero, suc, ◌+◌, ◌-◌, ◌*◌, ◌/◌, ◌%◌, ◌^◌, ◌≤◌, ◌<◌, ◌≡◌, refl, sym, ap, ◌∙◌, subst, ◌≢◌, ◌↔◌,
  ◌⊎◌, inl, inr, Bool, true, false, not, ◌&&◌, ◌||◌, Option, none, some, List, [], ◌∷◌, ◌++◌, map,
  append_assoc, append-nil, arith, ltb, leb, ◌==◌, if◌then◌else◌, Bool-cases, Option-cases, length,
  get_elem?, take, drop, All, length-append,
}
use xelis_blockchain.Prelude.Equality.{Eq}

pub record Arc (K : Type 0) : Type 0 where
  pub address : ℕ
  pub value : K

pub record Queue (K V : Type 0) : Type 0 where
  pub keys : List (Arc K)
  pub order : List (Arc K × V)
  -- the next address that the allocator gives
  pub next_address : ℕ

unfoldable pub new : {K V : Type 0} → ℕ → Queue K V
new address = record { keys = []; order = []; next_address = address }

module _ {K : Type 0} ⦃e : Eq K⦄ where
  -- `HashSet::get`
  unfoldable pub find_key : K → List (Arc K) → Option (Arc K)
  find_key key [] = none
  find_key key (a ∷ rest) =
      let found = find_key key rest in if e.beq a.value key then some a else found

  -- `HashSet::remove`
  unfoldable pub remove_key : K → List (Arc K) → List (Arc K)
  remove_key key [] = []
  remove_key key (a ∷ rest) =
      let others = remove_key key rest in if e.beq a.value key then rest else a ∷ others

  is_some : Option (Arc K) → Bool
  is_some (some a) = true
  is_some none = false

module _ {V K : Type 0} where
  -- `iter().find(|(k, _)| Arc::ptr_eq(k, key)).map(|(_, v)| v)`
  unfoldable pub find_address : ℕ → List (Arc K × V) → Option V
  find_address address [] = none
  find_address address ((a, value) ∷ rest) =
      let found = find_address address rest in if a.address == address then some value else found

  -- What is written through the reference of `iter_mut().find(..)`.
  unfoldable pub modify_address : ℕ → (V → V) → List (Arc K × V) → List (Arc K × V)
  modify_address address f [] = []
  modify_address address f ((a, value) ∷ rest) =
      let others = modify_address address f rest in
      if a.address == address then (a, f value) ∷ rest else (a, value) ∷ others

module _ {K V : Type 0} ⦃e : Eq K⦄ where
  unfoldable pub has : K → Queue K V → Bool
  unfolding is_some
  has key q = is_some (find_key key q.keys)

  unfoldable pub push : K → V → Queue K V → Queue K V × Bool
  push key value q =
      if has key q
      then (q, false)
      else (let a : Arc K = record { address = q.next_address; value = key } in
          (
            record {
              keys = q.keys ++ a ∷ [];
              order = q.order ++ (a, value) ∷ [];
              next_address = q.next_address + 1;
            },
            true,
          ))

  pop_order : List (Arc K × V) → Queue K V → Queue K V × Option (K × V)
  pop_order [] q = (q, none)
  pop_order ((a, value) ∷ rest) q =
      (record q { order = rest; keys = remove_key a.value q.keys }, some (a.value, value))

  unfoldable pub pop : Queue K V → Queue K V × Option (K × V)
  unfolding pop_order
  pop q = pop_order q.order q

  -- `position` and the removal at it: the entries before, the entry, those behind.
  split_at_key : K → List (Arc K × V) → Option (List (Arc K × V) × (Arc K × V) × List (Arc K × V))
  split_at_key key [] = none
  split_at_key key ((a, value) ∷ rest) =
      let further = split_at_key key rest in
      if e.beq a.value key then some ([], (a, value), rest) else elim further [
        | none ↦ none
        | some (before, x, behind) ↦ some ((a, value) ∷ before, x, behind)
      ]

  remove_found :
      Option (List (Arc K × V) × (Arc K × V) × List (Arc K × V))
      → Queue K V
      → Queue K V × Option (K × V)
  remove_found none q = (q, none)
  remove_found (some (before, (a, value), behind)) q = (
    record q { order = before ++ behind; keys = remove_key a.value q.keys },
    some (a.value, value),
  )

  unfoldable pub remove : K → Queue K V → Queue K V × Option (K × V)
  unfolding split_at_key remove_found
  remove key q = remove_found (split_at_key key q.order) q

  get_at : Option (Arc K) → Queue K V → Option V
  get_at none q = none
  get_at (some a) q = find_address a.address q.order

  unfoldable pub get : K → Queue K V → Option V
  unfolding get_at
  get key q = get_at (find_key key q.keys) q

  get_mut_at : Option (Arc K) → (V → V) → Queue K V → Queue K V
  get_mut_at none f q = q
  get_mut_at (some a) f q = record q { order = modify_address a.address f q.order }

  unfoldable pub get_mut : K → (V → V) → Queue K V → Queue K V
  unfolding get_mut_at
  get_mut key f q = get_mut_at (find_key key q.keys) f q

  unfoldable pub len : Queue K V → ℕ
  len q = length q.order

  unfoldable pub clear : Queue K V → Queue K V
  clear q = record q { keys = []; order = [] }

  -- The closure of `filter_map`, on the entries that the iterator reaches: those that it returns, and
  -- the queue.
  extract_loop : (K → V → Bool) → List (Arc K × V) → Queue K V → Queue K V × List (K × V)
  extract_loop f [] q = (q, [])
  extract_loop f ((a, value) ∷ rest) q =
      if f a.value value
      then (let (q', out) = extract_loop f rest (record q { keys = remove_key a.value q.keys }) in
          (q', (a.value, value) ∷ out))
      else extract_loop f rest (record q { order = q.order ++ (a, value) ∷ [] })

  -- The iterator is lazy: it is dropped when `reached` entries were reached, and the entries behind
  -- them are dropped with it.
  unfoldable pub extract_if : (K → V → Bool) → ℕ → Queue K V → Queue K V × List (K × V)
  unfolding extract_loop
  extract_if f reached q = extract_loop f (take reached q.order) (record q { order = [] })
