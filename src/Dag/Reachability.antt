-- ===== src/Dag/Reachability.antt =====
-- xelis_daemon/src/core/blockchain.rs, `build_reachability` and `verify_non_reachability`: whether one
-- tip of a block is an ancestor of another. The end of a deque is the head of the list.
pub mod Sound
pub mod Verdict
pub mod Fuel
use xelis_blockchain.Prelude.{
  ℕ, zero, suc, ◌+◌, ◌-◌, ◌*◌, ◌/◌, ◌%◌, ◌^◌, ◌≤◌, ◌<◌, ◌≡◌, refl, sym, ap, ◌∙◌, subst, ◌≢◌, ◌↔◌,
  ◌⊎◌, inl, inr, Bool, true, false, not, ◌&&◌, ◌||◌, Option, none, some, List, [], ◌∷◌, ◌++◌, map,
  append_assoc, append-nil, arith, ltb, leb, ◌==◌, if◌then◌else◌, Bool-cases, Option-cases, length,
  get_elem?, take, drop, All, length-append,
}
use xelis_blockchain.Prelude.Results.{Result, ok, err, ◌>>=◌}
use xelis_blockchain.Prelude.Equality.{Eq, contains}
use xelis_blockchain.Dag.{Provider, Ask, extend, stable_limit}

module _ {K E : Type 0} ⦃e : Eq K⦄ (p : Provider K E) where
  -- `for past_hash in tips.iter()`
  unfoldable pub push_unknown : List K → ℕ → List K → List (K × ℕ) → List (K × ℕ)
  push_unknown set level [] stack = stack
  push_unknown set level (past_hash ∷ rest) stack =
      push_unknown set level rest
        (if contains past_hash set then stack else (past_hash, level + 1) ∷ stack)

  -- The body of the loop, after an entry has been popped: the set and the stack.
  unfoldable pub reach_round : K → ℕ → List K → List (K × ℕ) → Ask E (List K × List (K × ℕ))
  unfolding push_unknown
  reach_round current_hash current_level set stack =
      if leb (2 * stable_limit) current_level
      then ok (extend set (current_hash ∷ []), stack)
      else (do
        tips ← p.get_past_blocks_for_block_hash current_hash
        let inserted = extend set (current_hash ∷ [])
        ok (inserted, push_unknown inserted current_level tips stack))

  -- `none` where the fuel is used up.
  unfoldable pub reach_loop : ℕ → List K → List (K × ℕ) → Option (Ask E (List K))
  unfolding reach_round
  reach_loop fuel set [] = some (ok set)
  reach_loop zero set (entry ∷ stack) = none
  reach_loop (suc fuel) set ((current_hash, current_level) ∷ stack) =
      elim (reach_round current_hash current_level set stack) [
        | err failure ↦ some (err failure)
        | ok next ↦ reach_loop fuel next.0 next.1
      ]

  unfoldable pub build_reachability : ℕ → K → Option (Ask E (List K))
  unfolding reach_loop
  build_reachability fuel hash = reach_loop fuel [] ((hash, 0) ∷ [])

  -- `for hash in tips`
  unfoldable pub reach_all : ℕ → List K → List (List K) → Option (Ask E (List (List K)))
  reach_all fuel [] reach = some (ok reach)
  reach_all fuel (hash ∷ rest) reach = elim (build_reachability fuel hash) [
    | none ↦ none
    | some found ↦ elim found [
      | err failure ↦ some (err failure)
      | ok set ↦ reach_all fuel rest (reach ++ set ∷ [])
    ]
  ]

  -- `for j in 0..tips_count`
  unfoldable pub covered : ℕ → K → ℕ → List (List K) → Bool
  covered i tip j [] = false
  covered i tip j (set ∷ rest) = not (i == j) && contains tip set || covered i tip (j + 1) rest

  -- `for i in 0..tips_count`
  unfoldable pub any_covered : ℕ → List K → List (List K) → Bool
  any_covered i [] reach = false
  any_covered i (tip ∷ rest) reach = covered i tip 0 reach || any_covered (i + 1) rest reach

  judge : List K → Option (Ask E (List (List K))) → Option (Ask E Bool)
  unfolding covered any_covered
  judge tips none = none
  judge tips (some (err failure)) = some (err failure)
  judge tips (some (ok reach)) = some (ok (not (any_covered 0 tips reach)))

  unfoldable pub verify_non_reachability : ℕ → List K → Option (Ask E Bool)
  unfolding judge reach_all
  verify_non_reachability fuel tips = judge tips (reach_all fuel tips [])
