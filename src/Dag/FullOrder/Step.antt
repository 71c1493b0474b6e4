-- ===== src/Dag/FullOrder/Step.antt =====
-- What one round of the loop does.
use xelis_blockchain.Prelude.{
  ℕ, ◌≡◌, refl, sym, ap, ◌∙◌, subst, inl, inr, true, false, Option, none, some, List, [], ◌∷◌, ◌++◌,
}
use xelis_blockchain.Prelude.Results.{ok, >>=-eq-ok, ok_injective, if_cases}
use xelis_blockchain.Prelude.Equality.{Eq, contains}
use xelis_blockchain.BlockDag.{Ord}
use xelis_blockchain.Dag.{Provider, extend}
use xelis_blockchain.Dag.Compare.{In}
use xelis_blockchain.Dag.FullOrder.{
  LruCache, CacheKey, Walk, is_considered, considered_scores, is_empty, expand, look_up, advance,
}
use xelis_blockchain.Dag.FullOrder.Scores.{IsScored, pushed_lem}

module _ {K E : Type 0} ⦃e : Eq K⦄ (p : Provider K E) (base : K) (base_topo_height : ℕ) where
  pub record IsDep (x t : K) : Type 0 where
    pub tips : List K
    pub known : p.get_past_blocks_for_block_hash x ≡ ok tips
    pub inside : In tips t
    pub above : e.beq x base ≡ false
    pub considered : is_considered p base_topo_height t ≡ ok true

  pub data Reaches (x : K) : K → Type 0 where
    self : Reaches x x
    along : {y z : K} → Reaches x y → IsDep y z → Reaches x z

module _ {C K E : Type 0} ⦃e : Eq K⦄ ⦃o : Ord K⦄ (p : Provider K E)
    (lru : LruCache C (CacheKey K) (List K)) (base : K) (base_height base_topo_height : ℕ) where
  -- The branches of the loop's body for a block `x`, and the state that each leaves.
  pub data Step (x : K) (w : Walk C K) : Walk C K → Type 0 where
    again : In w.processed x → Step x w (record w { full_order = extend w.full_order (x ∷ []) })
    cached :
        (order : List K)
        → (lru.get w.cache (x, base, base_height)).1 ≡ some order
        → Step x w (record w {
          full_order = extend w.full_order order;
          cache = (lru.get w.cache (x, base, base_height)).0;
        })
    leaf :
        ((t : K) → ¬ IsDep p base base_topo_height x t)
        → Step x w (record w {
          full_order = extend w.full_order (x ∷ []);
          cache =
              lru.put (lru.get w.cache (x, base, base_height)).0 (x, base, base_height) (x ∷ []);
        })
    push :
        (tips top : List K)
        → contains x w.processed ≡ false
        → p.get_past_blocks_for_block_hash x ≡ ok tips
        → e.beq x base ≡ false
        → IsScored p base_topo_height tips top
        → Step x w (record w {
          processed = extend w.processed (x ∷ []);
          stack = top ++ x ∷ w.stack;
          cache = (lru.get w.cache (x, base, base_height)).0;
        })

  expand_step :
      (x : K) (w w' : Walk C K) (tips : List K)
      → p.get_past_blocks_for_block_hash x ≡ ok tips
      → expand p lru base base_height base_topo_height x
          (record w { cache = (lru.get w.cache (x, base, base_height)).0 })
          tips
        ≡ ok w'
      → contains x w.processed ≡ false
      → Step x w w'
  unfolding expand is_empty
  expand_step x w w' [] q h n =
      subst (Step x w) (ok_injective refl h) (leaf (λ t d. cc (d.inside, ok_injective q d.known)))
  expand_step x w w' (y ∷ tips) q h n = elim (if_cases (e.beq x base) h) [
    | inl (b, r) ↦ subst (Step x w) (ok_injective refl r) (leaf (λ t d. cc (b, d.above)))
    | inr (b, r) ↦
        let (scores, k, s) = >>=-eq-ok (considered_scores p base_topo_height (y ∷ tips)) _ r in
        let (top, f, scored) = pushed_lem p base_topo_height (y ∷ tips) (x ∷ w.stack) scores k in
        subst (Step x w)
          (ap
              (λ l. record w {
                processed = extend w.processed (x ∷ []);
                stack = l;
                cache = (lru.get w.cache (x, base, base_height)).0;
              })
              (sym f)
            ∙ ok_injective refl s)
          (push (y ∷ tips) top n q b scored)
  ]

  look_up_step :
      (x : K) (w w' : Walk C K) (found : Option (List K))
      → (lru.get w.cache (x, base, base_height)).1 ≡ found
      → look_up p lru base base_height base_topo_height x
          (record w { cache = (lru.get w.cache (x, base, base_height)).0 })
          found
        ≡ ok w'
      → contains x w.processed ≡ false
      → Step x w w'
  unfolding look_up
  look_up_step x w w' none q h n =
      let (tips, k, r) = >>=-eq-ok (p.get_past_blocks_for_block_hash x) _ h in
      expand_step x w w' tips k r n
  look_up_step x w w' (some order) q h n = subst (Step x w) (ok_injective refl h) (cached order q)

  pub advance_step :
      (x : K) (w w' : Walk C K)
      → advance p lru base base_height base_topo_height x w ≡ ok w'
      → Step x w w'
  unfolding advance
  advance_step x w w' h = elim (if_cases (contains x w.processed) h) [
    | inl (m, r) ↦ subst (Step x w) (ok_injective refl r) (again m)
    | inr (m, r) ↦ look_up_step x w w' (lru.get w.cache (x, base, base_height)).1 refl r m
  ]
