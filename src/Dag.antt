-- ===== src/Dag.antt =====
-- xelis_daemon/src/core/blockchain.rs: which blocks of the DAG are stable, which are side blocks.
-- `Provider` has the methods of the storage traits in xelis_daemon/src/core/storage/providers that
-- these functions call. A set is a list; its order is that of the insertions.
pub mod Compare
pub mod Sync
pub mod Side
pub mod FullOrder
pub mod Weight
pub mod TipBase
pub mod Reachability
pub mod Distance
use xelis_blockchain.Prelude.{
  ℕ, zero, suc, ◌+◌, ◌-◌, ◌*◌, ◌/◌, ◌%◌, ◌^◌, ◌≤◌, ◌<◌, ◌≡◌, refl, sym, ap, ◌∙◌, subst, ◌≢◌, ◌↔◌,
  ◌⊎◌, inl, inr, Bool, true, false, not, ◌&&◌, ◌||◌, Option, none, some, List, [], ◌∷◌, ◌++◌, map,
  append_assoc, append-nil, arith, ltb, leb, ◌==◌, if◌then◌else◌, Bool-cases, Option-cases, length,
  get_elem?, take, drop, All, length-append,
}
use xelis_blockchain.Prelude.Results.{Result, ok, err, ◌>>=◌}
use xelis_blockchain.Prelude.Equality.{Eq, contains}
use xelis_blockchain.BlockDag.{BlockchainError, expected_tips}

abbrev pub stable_limit : ℕ
stable_limit = 8

abbrev pub u64_mod : ℕ
u64_mod = 2 ^ 64

abbrev pub Ask : Type 0 → Type 0 → Type 0
Ask E A = Result (BlockchainError E) A

pub record Provider (K E : Type 0) : Type 0 where
  pub get_height_for_block_hash : K → Ask E ℕ
  pub get_timestamp_for_block_hash : K → Ask E ℕ
  pub get_difficulty_for_block_hash : K → Ask E ℕ
  pub get_cumulative_difficulty_for_block_hash : K → Ask E ℕ
  pub get_past_blocks_for_block_hash : K → Ask E (List K)
  pub get_estimated_covariance_for_block_hash : K → Ask E ℕ
  pub is_block_topological_ordered : K → Bool
  pub get_topo_height_for_hash : K → Ask E ℕ
  pub get_hash_at_topo_height : ℕ → Ask E K
  pub get_blocks_at_height : ℕ → Ask E (List K)
  pub get_pruned_topoheight : Ask E (Option ℕ)

-- `HashSet::extend` and `IndexSet::extend`: what is not there yet is appended.
unfoldable pub extend : {K : Type 0} ⦃e : Eq K⦄ → List K → List K → List K
extend set [] = set
extend set (x ∷ xs) = extend (if contains x set then set else set ++ x ∷ []) xs

-- The height down to which the blocks are compared.
unfoldable pub stable_point : ℕ → ℕ
stable_point block_height =
    if leb stable_limit block_height
    then block_height - stable_limit
    else stable_limit - block_height

module _ {K E : Type 0} (p : Provider K E) where
  -- `for hash in tips_at_height`, with the number of ordered blocks before it: whether there are more
  -- than one.
  unfoldable pub several_ordered : List K → ℕ → Bool
  several_ordered [] blocks_in_main_chain = false
  several_ordered (hash ∷ rest) blocks_in_main_chain = elim (p.is_block_topological_ordered hash) [
    | true ↦ elim (ltb 1 (blocks_in_main_chain + 1)) [
      | true ↦ true
      | false ↦ several_ordered rest (blocks_in_main_chain + 1)
    ]
    | false ↦ several_ordered rest blocks_in_main_chain
  ]

  -- `while i >= stable_point && i != 0`
  unfoldable pub collect_blocks : ⦃e : Eq K⦄ → ℕ → ℕ → List K → Ask E (List K)
  collect_blocks stable_point zero pre_blocks = ok pre_blocks
  collect_blocks stable_point (suc i) pre_blocks = elim (leb stable_point (suc i)) [
    | true ↦ p.get_blocks_at_height (suc i) >>= λ blocks.
        collect_blocks stable_point i (extend pre_blocks blocks)
    | false ↦ ok pre_blocks
  ]

  -- `for pre_hash in pre_blocks`: whether the difficulty is above that of each ordered block.
  unfoldable pub is_heaviest : ℕ → List K → Ask E Bool
  is_heaviest difficulty [] = ok true
  is_heaviest difficulty (pre_hash ∷ rest) = elim (p.is_block_topological_ordered pre_hash) [
    | true ↦ p.get_cumulative_difficulty_for_block_hash pre_hash >>= λ past.
        elim (leb difficulty past) [ true ↦ ok false | false ↦ is_heaviest difficulty rest ]
    | false ↦ is_heaviest difficulty rest
  ]

  -- We prune only at a sync block.
  is_pruned_at : Option ℕ → K → Ask E Bool
  is_pruned_at none hash = ok false
  is_pruned_at (some pruned_topo) hash = do
    topoheight ← p.get_topo_height_for_hash hash
    ok (pruned_topo == topoheight)

  compare_past : ⦃e : Eq K⦄ → K → ℕ → Ask E Bool
  unfolding several_ordered collect_blocks is_heaviest stable_point
  compare_past hash block_height = do
    tips_at_height ← p.get_blocks_at_height block_height
    if several_ordered tips_at_height 0 then ok false else (do
      pre_blocks ← collect_blocks (stable_point block_height) (block_height - 1) []
      difficulty ← p.get_cumulative_difficulty_for_block_hash hash
      is_heaviest difficulty pre_blocks)

  unfoldable pub is_sync_block_at_height : ⦃e : Eq K⦄ → K → ℕ → Ask E Bool
  unfolding is_pruned_at compare_past
  is_sync_block_at_height hash height = do
    block_height ← p.get_height_for_block_hash hash
    if block_height == 0
        then ok true
        else if ltb height ((block_height + stable_limit) % u64_mod)
            || not (p.is_block_topological_ordered hash)
        then ok false
        else (do
          pruned ← p.get_pruned_topoheight
          at_pruned ← is_pruned_at pruned hash
          if at_pruned then ok true else compare_past hash block_height)

  -- `while topoheight > 0`
  unfoldable pub locate_nearest_sync_block_for_topoheight : ⦃e : Eq K⦄ → ℕ → ℕ → Ask E ℕ
  locate_nearest_sync_block_for_topoheight zero current_height = ok 0
  locate_nearest_sync_block_for_topoheight (suc topoheight) current_height = do
    block_hash ← p.get_hash_at_topo_height (suc topoheight)
    is_sync ← is_sync_block_at_height block_hash current_height
    elim is_sync [
      | true ↦ p.get_topo_height_for_hash block_hash
      | false ↦ locate_nearest_sync_block_for_topoheight topoheight current_height
    ]

  -- `while counter < STABLE_LIMIT && i > 0`, with the rounds that are left.
  unfoldable pub side_loop : ℕ → ℕ → ℕ → Ask E Bool
  side_loop height zero i = ok false
  side_loop height (suc rounds) zero = ok false
  side_loop height (suc rounds) (suc i) = do
    hash ← p.get_hash_at_topo_height (suc i)
    previous_height ← p.get_height_for_block_hash hash
    elim (leb height previous_height) [ true ↦ ok true | false ↦ side_loop height rounds i ]

  unfoldable pub is_side_block_internal : K → ℕ → Ask E Bool
  unfolding side_loop
  is_side_block_internal hash current_topoheight =
      if not (p.is_block_topological_ordered hash) then ok false else (do
        topoheight ← p.get_topo_height_for_hash hash
        if topoheight == 0 || ltb current_topoheight topoheight then ok false else (do
          height ← p.get_height_for_block_hash hash
          side_loop height stable_limit (topoheight - 1)))

  unfoldable pub has_block_stable_order : K → ℕ → Ask E Bool
  has_block_stable_order hash topoheight =
      if p.is_block_topological_ordered hash
      then (do
        block_topo_height ← p.get_topo_height_for_hash hash
        ok (leb ((block_topo_height + stable_limit) % u64_mod) topoheight))
      else ok false
