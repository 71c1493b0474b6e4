-- ===== src/Queue/Ordered.antt =====
-- What a queue promises: an ordered list of keys and values in which each key stands at most once.
use xelis_blockchain.Prelude.{
  Bool, true, false, ◌||◌, Option, none, some, List, [], ◌∷◌, ◌++◌, if◌then◌else◌,
}
use xelis_blockchain.Prelude.Equality.{Eq}

module _ {K V : Type 0} ⦃e : Eq K⦄ where
  unfoldable pub lookup : K → List (K × V) → Option V
  lookup key [] = none
  lookup key ((k, value) ∷ rest) =
      let found = lookup key rest in if e.beq k key then some value else found

  unfoldable pub member : K → List (K × V) → Bool
  member key [] = false
  member key ((k, value) ∷ rest) = e.beq k key || member key rest

  -- The value of the first entry with the key is changed.
  unfoldable pub change : K → (V → V) → List (K × V) → List (K × V)
  change key f [] = []
  change key f ((k, value) ∷ rest) =
      let others = change key f rest in
      if e.beq k key then (k, f value) ∷ rest else (k, value) ∷ others

  unfoldable pub add : K → V → List (K × V) → List (K × V) × Bool
  add key value xs = if member key xs then (xs, false) else (xs ++ (key, value) ∷ [], true)

  unfoldable pub take_first : List (K × V) → List (K × V) × Option (K × V)
  take_first [] = ([], none)
  take_first (x ∷ rest) = (rest, some x)

  unfoldable pub delete : K → List (K × V) → List (K × V) × Option (K × V)
  delete key [] = ([], none)
  delete key ((k, value) ∷ rest) =
      let others = delete key rest in
      if e.beq k key then (rest, some (k, value)) else ((k, value) ∷ others.0, others.1)

  unfoldable pub partition : (K → V → Bool) → List (K × V) → List (K × V) × List (K × V)
  partition f [] = ([], [])
  partition f ((k, value) ∷ rest) =
      let others = partition f rest in
      if f k value then (others.0, (k, value) ∷ others.1) else ((k, value) ∷ others.0, others.1)
