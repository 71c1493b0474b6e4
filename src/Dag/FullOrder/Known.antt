-- ===== src/Dag/FullOrder/Known.antt =====
-- A round has no error where the storage knows the blocks.
use xelis_blockchain.Prelude.{
  ℕ, ◌≡◌, refl, inl, inr, Bool, ◌||◌, Option, none, some, List, [], ◌∷◌, arith, Bool-cases,
}
use xelis_blockchain.Prelude.Results.{ok, Returns, if_returns, >>=_returns}
use xelis_blockchain.Prelude.Equality.{Eq, contains, beq_refl}
use xelis_blockchain.BlockDag.{Ord}
use xelis_blockchain.Dag.{Provider}
use xelis_blockchain.Dag.Compare.{In}
use xelis_blockchain.Dag.FullOrder.{
  LruCache, CacheKey, Walk, advance, look_up, expand, is_empty, is_considered, considered_scores,
}

module _ {K E : Type 0} ⦃e : Eq K⦄ (p : Provider K E) (base_topo_height : ℕ) where
  -- The storage answers for a tip.
  pub record IsScorable (t : K) : Type 0 where
    pub taken : Bool
    pub considered : is_considered p base_topo_height t ≡ ok taken
    pub cumulative : ℕ
    pub difficulty : p.get_cumulative_difficulty_for_block_hash t ≡ ok cumulative

  -- The storage has the tips of a block, and answers for each of them.
  pub record IsKnown (x : K) : Type 0 where
    pub tips : List K
    pub past : p.get_past_blocks_for_block_hash x ≡ ok tips
    pub scorable : (t : K) → In tips t → IsScorable t

  scores_known :
      (x : K) (rest : List K) (others : List (K × ℕ))
      → IsScorable x
      → considered_scores p base_topo_height rest ≡ ok others
      → (scores : List (K × ℕ)) × (considered_scores p base_topo_height (x ∷ rest) ≡ ok scores)
  unfolding considered_scores
  scores_known x rest others s q = elim (Bool-cases s.taken) [
    | inl t ↦ ((x, s.cumulative) ∷ others, rw (s.considered, t, s.difficulty, q) refl)
    | inr t ↦ (others, rw (s.considered, t) q)
  ]

  pub considered_scores_known :
      (tips : List K)
      → ((t : K) → In tips t → IsScorable t)
      → (scores : List (K × ℕ)) × (considered_scores p base_topo_height tips ≡ ok scores)
  unfolding considered_scores
  considered_scores_known [] h = ([], refl)
  considered_scores_known (x ∷ tips) h =
      let (others, q) = considered_scores_known tips (λ t m. h t (ground (arith, m))) in
      scores_known x tips others (h x (ground (arith, beq_refl e x))) q

module _ {C K E : Type 0} ⦃e : Eq K⦄ ⦃o : Ord K⦄ (p : Provider K E)
    (lru : LruCache C (CacheKey K) (List K)) (base : K) (base_height base_topo_height : ℕ) where
  expand_known :
      (x : K) (w : Walk C K) (tips : List K)
      → ((t : K) → In tips t → IsScorable p base_topo_height t)
      → Returns (expand p lru base base_height base_topo_height x w tips)
  unfolding expand is_empty
  expand_known x w tips h =
      let (scores, k) = considered_scores_known p base_topo_height tips h in
      if_returns (is_empty tips || e.beq x base) (_, refl) (>>=_returns _ k (_, refl))

  look_up_known :
      (x : K) (w : Walk C K) (found : Option (List K))
      → IsKnown p base_topo_height x
      → Returns (look_up p lru base base_height base_topo_height x w found)
  unfolding look_up
  look_up_known x w none k = >>=_returns _ k.past (expand_known x w k.tips k.scorable)
  look_up_known x w (some order) k = (_, refl)

  pub advance_known :
      (x : K) (w : Walk C K)
      → IsKnown p base_topo_height x
      → Returns (advance p lru base base_height base_topo_height x w)
  unfolding advance
  advance_known x w k =
      if_returns (contains x w.processed) (_, refl)
        (look_up_known x _ (lru.get w.cache (x, base, base_height)).1 k)
