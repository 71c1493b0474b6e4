-- ===== src/Dag/FullOrder.antt =====
-- xelis_daemon/src/core/blockchain.rs, `generate_full_order`: the blocks above a base in a full order.
-- The end of a deque is the head of the list. `LruCache` has the operations of the `lru` crate that the
-- code calls, with the law that a value comes from the last `put` of its key.
pub mod Closed
pub mod Scores
pub mod Step
pub mod Held
pub mod Loop
pub mod Rounds
pub mod Known
pub mod Ends
pub mod Fuel
use xelis_blockchain.Prelude.{
  ℕ, zero, suc, ◌+◌, ◌-◌, ◌*◌, ◌/◌, ◌%◌, ◌^◌, ◌≤◌, ◌<◌, ◌≡◌, refl, sym, ap, ◌∙◌, subst, ◌≢◌, ◌↔◌,
  ◌⊎◌, inl, inr, Bool, true, false, not, ◌&&◌, ◌||◌, Option, none, some, List, [], ◌∷◌, ◌++◌, map,
  append_assoc, append-nil, arith, ltb, leb, ◌==◌, if◌then◌else◌, Bool-cases, Option-cases, length,
  get_elem?, take, drop, All, length-append,
}
use xelis_blockchain.Prelude.Results.{Result, ok, err, ◌>>=◌}
use xelis_blockchain.Prelude.Equality.{Eq, contains}
use xelis_blockchain.BlockDag.{Ord, sort_ascending_by_cumulative_difficulty, hashes}
use xelis_blockchain.Dag.{Provider, Ask, extend}

pub record LruCache (C Key V : Type 0) : Type 0 where
  -- `get` moves the key to the front, which is why the cache changes.
  pub get : C → Key → C × Option V
  pub put : C → Key → V → C
  pub get_keeps :
      (c : C) (k j : Key) (v : V) → (get (get c k).0 j).1 ≡ some v → (get c j).1 ≡ some v
  pub put_adds :
      (c : C) (k j : Key) (w v : V)
      → (get (put c k w) j).1 ≡ some v
      → ((k ≡ j) × (w ≡ v)) ⊎ ((k ≢ j) × ((get c j).1 ≡ some v))

abbrev pub CacheKey : Type 0 → Type 0
CacheKey K = K × K × ℕ

pub record Walk (C K : Type 0) : Type 0 where
  pub full_order : List K
  pub stack : List K
  pub processed : List K
  pub cache : C

-- `for (tip_hash, _) in scores { stack.push_back(tip_hash) }`
unfoldable pub push_all : {K : Type 0} → List K → List K → List K
push_all stack [] = stack
push_all stack (x ∷ xs) = push_all (x ∷ stack) xs

module _ {K E : Type 0} (p : Provider K E) (base_topo_height : ℕ) where
  -- Whether a tip is taken into account.
  unfoldable pub is_considered : K → Ask E Bool
  is_considered tip_hash = elim (p.is_block_topological_ordered tip_hash) [
    | false ↦ ok true
    | true ↦
        p.get_topo_height_for_hash tip_hash >>= λ topoheight. ok (leb base_topo_height topoheight)
  ]

  -- `for tip_hash in block_tips.iter()`
  unfoldable pub considered_scores : List K → Ask E (List (K × ℕ))
  considered_scores [] = ok []
  considered_scores (tip_hash ∷ rest) = is_considered tip_hash >>= λ taken. elim taken [
    | true ↦ p.get_cumulative_difficulty_for_block_hash tip_hash >>= λ diff.
        considered_scores rest >>= λ scores. ok ((tip_hash, diff) ∷ scores)
    | false ↦ considered_scores rest
  ]

is_empty : {A : Type 0} → List A → Bool
is_empty [] = true
is_empty (x ∷ xs) = false

module _ {C K E : Type 0} ⦃e : Eq K⦄ ⦃o : Ord K⦄ (p : Provider K E)
    (lru : LruCache C (CacheKey K) (List K)) (base : K) (base_height base_topo_height : ℕ) where
  -- What is done with the tips of a block that is seen for the first time and is not in the cache.
  unfoldable pub expand : K → Walk C K → List K → Ask E (Walk C K)
  unfolding is_empty
  expand current_hash w block_tips =
      if is_empty block_tips || e.beq current_hash base
      then ok (record w {
        cache = lru.put w.cache (current_hash, base, base_height) (current_hash ∷ []);
        full_order = extend w.full_order (current_hash ∷ []);
      })
      else (do
        scores ← considered_scores p base_topo_height block_tips
        ok (record w {
          processed = extend w.processed (current_hash ∷ []);
          stack =
              push_all (current_hash ∷ w.stack)
                (hashes (sort_ascending_by_cumulative_difficulty scores));
        }))

  unfoldable pub look_up : K → Walk C K → Option (List K) → Ask E (Walk C K)
  unfolding expand
  look_up current_hash w (some order_cache) =
      ok (record w { full_order = extend w.full_order order_cache })
  look_up current_hash w none = do
    block_tips ← p.get_past_blocks_for_block_hash current_hash
    expand current_hash w block_tips

  -- The body of the loop, after `current_hash` has been popped.
  unfoldable pub advance : K → Walk C K → Ask E (Walk C K)
  unfolding look_up
  advance current_hash w =
      if contains current_hash w.processed
      then ok (record w { full_order = extend w.full_order (current_hash ∷ []) })
      else let (cache, found) = lru.get w.cache (current_hash, base, base_height) in
        look_up current_hash (record w { cache = cache }) found

  -- `none` where the fuel is used up.
  unfoldable pub order_loop : ℕ → Walk C K → Option (Ask E (Walk C K))
  unfolding advance
  order_loop zero w = elim w.stack [ [] ↦ some (ok w) | _ ∷ _ ↦ none ]
  order_loop (suc fuel) w = elim w.stack [
    | [] ↦ some (ok w)
    | current_hash ∷ rest ↦ elim (advance current_hash (record w { stack = rest })) [
      | err failure ↦ some (err failure)
      | ok next ↦ order_loop fuel next
    ]
  ]

  put_order : K → Option (Ask E (Walk C K)) → Option (Ask E (List K × C))
  put_order hash none = none
  put_order hash (some (err failure)) = some (err failure)
  put_order hash (some (ok w)) =
      some (ok (w.full_order, lru.put w.cache (hash, base, base_height) w.full_order))

  unfoldable pub generate_full_order : ℕ → C → K → Option (Ask E (List K × C))
  unfolding order_loop put_order
  generate_full_order fuel cache hash = put_order hash (
      order_loop fuel
        (record { full_order = []; stack = hash ∷ []; processed = []; cache = cache }))
