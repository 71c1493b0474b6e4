-- ===== src/Dag/Distance.antt =====
-- xelis_daemon/src/core/blockchain.rs, `find_lowest_height_from_mainchain` and
-- `calculate_distance_from_mainchain`. The end of a deque is the head of the list.
pub mod Lowest
pub mod Answer
use xelis_blockchain.Prelude.{
  ℕ, zero, suc, ◌+◌, ◌-◌, ◌*◌, ◌/◌, ◌%◌, ◌^◌, ◌≤◌, ◌<◌, ◌≡◌, refl, sym, ap, ◌∙◌, subst, ◌≢◌, ◌↔◌,
  ◌⊎◌, inl, inr, Bool, true, false, not, ◌&&◌, ◌||◌, Option, none, some, List, [], ◌∷◌, ◌++◌, map,
  append_assoc, append-nil, arith, ltb, leb, ◌==◌, if◌then◌else◌, Bool-cases, Option-cases, length,
  get_elem?, take, drop, All, length-append,
}
use xelis_blockchain.Prelude.Results.{Result, ok, err, ◌>>=◌}
use xelis_blockchain.Prelude.Equality.{Eq, contains}
use xelis_blockchain.Dag.{Provider, Ask, extend}

module _ {K E : Type 0} ⦃e : Eq K⦄ (p : Provider K E) where
  -- `for tip_hash in tips.iter()`: the lowest height and the stack.
  unfoldable pub scan_tips : List K → ℕ → List K → Ask E (ℕ × List K)
  scan_tips [] lowest_height stack = ok (lowest_height, stack)
  scan_tips (tip_hash ∷ rest) lowest_height stack =
      if p.is_block_topological_ordered tip_hash
      then (do
        height ← p.get_height_for_block_hash tip_hash
        scan_tips rest (if ltb height lowest_height then height else lowest_height) stack)
      else scan_tips rest lowest_height (tip_hash ∷ stack)

  -- `none` where the fuel is used up.
  unfoldable pub lowest_loop : ℕ → ℕ → List K → List K → Option (Ask E ℕ)
  unfolding scan_tips
  lowest_loop fuel lowest_height processed [] = some (ok lowest_height)
  lowest_loop zero lowest_height processed (current_hash ∷ stack) = none
  lowest_loop (suc fuel) lowest_height processed (current_hash ∷ stack) =
      if contains current_hash processed
      then lowest_loop fuel lowest_height processed stack
      else elim (p.get_past_blocks_for_block_hash current_hash >>= λ tips.
          scan_tips tips lowest_height stack) [
            | err failure ↦ some (err failure)
            | ok next ↦ lowest_loop fuel next.0 (extend processed (current_hash ∷ [])) next.1
          ]

  unfoldable pub find_lowest_height_from_mainchain : ℕ → K → Option (Ask E ℕ)
  find_lowest_height_from_mainchain fuel hash = lowest_loop fuel (2 ^ 64 - 1) [] (hash ∷ [])

  unfoldable pub calculate_distance_from_mainchain : ℕ → K → Option (Ask E ℕ)
  calculate_distance_from_mainchain fuel hash =
      if p.is_block_topological_ordered hash
      then some (p.get_height_for_block_hash hash)
      else find_lowest_height_from_mainchain fuel hash
