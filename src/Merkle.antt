-- ===== src/Merkle.antt =====
-- xelis_daemon/src/core/merkle.rs: the root of a tree of hashes.
-- The hash function is an argument. `remove(0)` panics on an empty list: no root.
pub mod Build
pub mod Binding
use xelis_blockchain.Prelude.{
  ℕ, zero, suc, ◌+◌, ◌-◌, ◌*◌, ◌/◌, ◌%◌, ◌^◌, ◌≤◌, ◌<◌, ◌≡◌, refl, sym, ap, ◌∙◌, subst, ◌≢◌, ◌↔◌,
  ◌⊎◌, inl, inr, Bool, true, false, not, ◌&&◌, ◌||◌, Option, none, some, List, [], ◌∷◌, ◌++◌, map,
  append_assoc, append-nil, arith, ltb, leb, ◌==◌, if◌then◌else◌, Bool-cases, Option-cases, length,
  get_elem?, take, drop, All, length-append,
}
use xelis_blockchain.Prelude.Equality.{list_beq}

pub record MerkleBuilder : Type 0 where
  pub hashes : List (List ℕ)

unfoldable pub new : MerkleBuilder
new = record { hashes = [] }

unfoldable pub add : List ℕ → MerkleBuilder → MerkleBuilder
add element b = record { hashes = b.hashes ++ element ∷ [] }

module _ (hash : List ℕ → List ℕ) where
  unfoldable pub add_bytes : List ℕ → MerkleBuilder → MerkleBuilder
  unfolding add
  add_bytes bytes b = add (hash bytes) b

  -- The body of the `while`: each hash with the next one, a last one alone with itself.
  unfoldable pub pair_up : List (List ℕ) → List (List ℕ)
  pair_up [] = []
  pair_up (left ∷ []) = hash (left ++ left) ∷ []
  pair_up (left ∷ right ∷ rest) = hash (left ++ right) ∷ pair_up rest

  -- The `while`, for at most as many rounds as the first argument.
  unfoldable pub build_loop : ℕ → List (List ℕ) → List (List ℕ)
  build_loop zero hashes = hashes
  build_loop (suc fuel) hashes =
      let built = build_loop fuel (pair_up hashes) in
      if ltb 1 (length hashes) then built else hashes

  unfoldable pub remove_first : List (List ℕ) → MerkleBuilder × Option (List ℕ)
  remove_first [] = (record { hashes = [] }, none)
  remove_first (root ∷ rest) = (record { hashes = rest }, some root)

  unfoldable pub build : MerkleBuilder → MerkleBuilder × Option (List ℕ)
  unfolding remove_first
  build b = remove_first (build_loop (length b.hashes) b.hashes)

  is_root : List ℕ → Option (List ℕ) → Option Bool
  is_root root none = none
  is_root root (some found) = some (list_beq found root)

  unfoldable pub verify : List ℕ → MerkleBuilder → MerkleBuilder × Option Bool
  unfolding is_root
  verify root b = let (b', found) = build b in (b', is_root root found)
