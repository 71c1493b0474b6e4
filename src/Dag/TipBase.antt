-- ===== src/Dag/TipBase.antt =====
-- xelis_daemon/src/core/blockchain.rs, `find_tip_base` and `find_common_base`. The end of a deque is the
-- head of the list. An error comes with the cache that it leaves.
pub mod Lowest
pub mod Visit
pub mod Sound
pub mod Loop
pub mod Ends
pub mod Known
pub mod Fuel
pub mod Common
pub mod Complete
use xelis_blockchain.Prelude.{
  ℕ, zero, suc, Bool, true, false, ◌&&◌, ◌||◌, Option, none, some, List, [], ◌∷◌, ◌++◌, ltb, leb,
  ◌==◌, if◌then◌else◌,
}
use xelis_blockchain.Prelude.Results.{Result, ok, err, ◌>>=◌}
use xelis_blockchain.Prelude.Equality.{Eq, contains}
use xelis_blockchain.BlockDag.{BlockchainError, expected_tips, sort_by}
use xelis_blockchain.Dag.{Provider, Ask, extend, is_sync_block_at_height}
use xelis_blockchain.Dag.FullOrder.{LruCache}

abbrev pub Base : Type 0 → Type 0
Base K = K × ℕ

-- A result, or an error and the cache as it is then.
abbrev pub Cached : Type 0 → Type 0 → Type 0 → Type 0
Cached C E A = Result (C × BlockchainError E) A

abbrev pub with_cache : {C E A : Type 0} → C → Ask E A → Cached C E A
with_cache c (err failure) = err (c, failure)
with_cache c (ok a) = ok a

pub record BaseWalk (C K : Type 0) : Type 0 where
  pub stack : List K
  pub bases : List (Base K)
  pub processed : List K
  pub cache : C

-- `bases.sort_by(|(_, a), (_, b)| b.cmp(a))`
unfoldable pub sort_bases : {K : Type 0} → List (Base K) → List (Base K)
sort_bases bases = sort_by (λ a b. ltb b.1 a.1) bases

unfoldable pub last : {A : Type 0} → List A → Option A
last [] = none
last (x ∷ []) = some x
last (x ∷ y ∷ xs) = last (y ∷ xs)

abbrev pub unwrap_or_zero : Option ℕ → ℕ
unwrap_or_zero none = 0
unwrap_or_zero (some n) = n

module _ {K : Type 0} ⦃e : Eq K⦄ where
  unfoldable pub has_base : Base K → List (Base K) → Bool
  has_base b [] = false
  has_base b (x ∷ xs) = e.beq x.0 b.0 && (x.1 == b.1) || has_base b xs

  unfoldable pub insert_base : Base K → List (Base K) → List (Base K)
  insert_base b bases = if has_base b bases then bases else bases ++ b ∷ []

module _ {K E : Type 0} (p : Provider K E) (pruned_topoheight : ℕ) where
  -- The height of a block that is ordered at or below the pruned topoheight.
  unfoldable pub pruned_height : K → Ask E (Option ℕ)
  pruned_height hash =
      if ltb 0 pruned_topoheight && p.is_block_topological_ordered hash
      then (do
        topoheight ← p.get_topo_height_for_hash hash
        if leb topoheight pruned_topoheight
            then (do block_height ← p.get_height_for_block_hash hash; ok (some block_height))
            else ok none)
      else ok none

module _ {C K E : Type 0} ⦃e : Eq K⦄ (p : Provider K E) (lru : LruCache C (K × ℕ) (Base K))
    (height pruned_topoheight : ℕ) where
  module _ (hash : K) where
    -- `for tip_hash in tips.iter()`
    unfoldable pub visit_tips : List K → BaseWalk C K → Cached C E (BaseWalk C K)
    visit_tips [] w = ok w
    visit_tips (tip_hash ∷ rest) w =
        with_cache w.cache (pruned_height p pruned_topoheight tip_hash) >>= λ pruned. elim pruned [
          | some block_height ↦
              ok (record w { bases = insert_base (tip_hash, block_height) w.bases })
          | none ↦ with_cache w.cache (is_sync_block_at_height p tip_hash height) >>= λ is_sync.
              elim is_sync [
                | true ↦
                    with_cache w.cache (p.get_height_for_block_hash tip_hash) >>= λ block_height.
                    ok (record w {
                      cache = lru.put w.cache (hash, height) (tip_hash, block_height);
                      bases = insert_base (tip_hash, block_height) w.bases;
                    })
                | false ↦ visit_tips rest (record w {
                  stack = if contains tip_hash w.processed then w.stack else tip_hash ∷ w.stack;
                })
              ]
        ]

    unfoldable pub visit_past : K → List K → BaseWalk C K → Cached C E (BaseWalk C K)
    unfolding visit_tips
    visit_past current_hash [] w = ok (record w {
      cache = lru.put w.cache (hash, height) (current_hash, height);
      bases = insert_base (current_hash, 0) w.bases;
    })
    visit_past current_hash (tip ∷ tips) w = visit_tips (tip ∷ tips) w

    unfoldable pub visit_cached : K → Option (Base K) → BaseWalk C K → Cached C E (BaseWalk C K)
    unfolding visit_past
    visit_cached current_hash (some base) w = ok (record w { bases = insert_base base w.bases })
    visit_cached current_hash none w = do
      tips ← with_cache w.cache (p.get_past_blocks_for_block_hash current_hash)
      visit_past current_hash tips w

    unfoldable pub visit_unpruned : K → Option ℕ → BaseWalk C K → Cached C E (BaseWalk C K)
    unfolding visit_cached
    visit_unpruned current_hash (some block_height) w =
        ok (record w { bases = insert_base (current_hash, block_height) w.bases })
    visit_unpruned current_hash none w =
        let (cache, found) = lru.get w.cache (current_hash, height) in
        visit_cached current_hash found (record w { cache = cache })

    -- The body of the loop, after `current_hash` has been popped.
    unfoldable pub visit : K → BaseWalk C K → Cached C E (BaseWalk C K)
    unfolding visit_unpruned
    visit current_hash w = do
      pruned ← with_cache w.cache (pruned_height p pruned_topoheight current_hash)
      visit_unpruned current_hash pruned
          (record w { processed = extend w.processed (current_hash ∷ []) })

    -- `none` where the fuel is used up.
    unfoldable pub base_loop : ℕ → BaseWalk C K → Option (Cached C E (BaseWalk C K))
    unfolding visit
    base_loop zero w = elim w.stack [ [] ↦ some (ok w) | _ ∷ _ ↦ none ]
    base_loop (suc fuel) w = elim w.stack [
      | [] ↦ some (ok w)
      | current_hash ∷ rest ↦ elim (visit current_hash (record w { stack = rest })) [
        | err failure ↦ some (err failure)
        | ok next ↦ base_loop fuel next
      ]
    ]

    -- The lowest base, which is put in the cache.
    unfoldable pub lowest_base : BaseWalk C K → Cached C E (Base K × C)
    lowest_base w = elim (last (sort_bases w.bases)) [
      | none ↦ err (w.cache, expected_tips)
      | some base ↦ ok (base, lru.put w.cache (hash, height) base)
    ]

    finish : Option (Cached C E (BaseWalk C K)) → Option (Cached C E (Base K × C))
    unfolding lowest_base
    finish none = none
    finish (some (err failure)) = some (err failure)
    finish (some (ok w)) = some (lowest_base w)

  unfoldable pub find_tip_base : ℕ → C → K → Option (Cached C E (Base K × C))
  unfolding base_loop finish
  find_tip_base fuel cache hash = finish hash (
      base_loop hash fuel (record { stack = hash ∷ []; bases = []; processed = []; cache = cache }))

  -- The bases of all tips, in their order.
  unfoldable pub collect_bases :
      ℕ → C → List K → List (Base K) → Option (Cached C E (List (Base K) × C))
  collect_bases fuel cache [] bases = some (ok (bases, cache))
  collect_bases fuel cache (hash ∷ rest) bases = elim (find_tip_base fuel cache hash) [
    | none ↦ none
    | some found ↦ elim found [
      | err failure ↦ some (err failure)
      | ok answer ↦ collect_bases fuel answer.1 rest (bases ++ answer.0 ∷ [])
    ]
  ]

module _ {C K E : Type 0} ⦃e : Eq K⦄ (p : Provider K E) (lru : LruCache C (K × ℕ) (Base K)) where
  unfoldable pub highest : List K → ℕ → Ask E ℕ
  highest [] best_height = ok best_height
  highest (hash ∷ rest) best_height = do
    height ← p.get_height_for_block_hash hash
    highest rest (if ltb best_height height then height else best_height)

  answer_lowest : C → Option (Base K) → Cached C E (Base K × C)
  answer_lowest cache none = err (cache, expected_tips)
  answer_lowest cache (some base) = ok (base, cache)

  take_lowest : Option (Cached C E (List (Base K) × C)) → Option (Cached C E (Base K × C))
  unfolding answer_lowest
  take_lowest none = none
  take_lowest (some (err failure)) = some (err failure)
  take_lowest (some (ok (bases, cache))) = some (answer_lowest cache (last (sort_bases bases)))

  -- What follows once the best height and the pruned topoheight have been asked for.
  from_best_height : ℕ → C → List K → Ask E ℕ → Ask E (Option ℕ) → Option (Cached C E (Base K × C))
  unfolding take_lowest
  from_best_height fuel cache tips (err failure) pruned = some (err (cache, failure))
  from_best_height fuel cache tips (ok best_height) (err failure) = some (err (cache, failure))
  from_best_height fuel cache tips (ok best_height) (ok pruned) =
      take_lowest (collect_bases p lru best_height (unwrap_or_zero pruned) fuel cache tips [])

  unfoldable pub find_common_base : ℕ → C → List K → Option (Cached C E (Base K × C))
  unfolding highest from_best_height
  find_common_base fuel cache tips =
      from_best_height fuel cache tips (highest tips 0) p.get_pruned_topoheight
