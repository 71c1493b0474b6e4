-- ===== src/Dag/TipBase/Sound.antt =====
-- What the search for a tip base keeps, round by round.
use xelis_blockchain.Prelude.{
  ℕ, ◌≤◌, ◌≡◌, refl, sym, subst, ◌⊎◌, inl, inr, false, Option, none, some, List, [], ◌∷◌, ◌++◌,
  arith, length,
}
use xelis_blockchain.Prelude.Results.{ok, ok_injective}
use xelis_blockchain.Prelude.Equality.{Eq, contains, beq_refl}
use xelis_blockchain.Dag.{Provider, extend}
use xelis_blockchain.Dag.Compare.{In}
use xelis_blockchain.Dag.FullOrder.{LruCache}
use xelis_blockchain.Dag.TipBase.{
  Base, BaseWalk, insert_base, pruned_height, visit_past, visit_cached, visit_unpruned, visit,
}
use xelis_blockchain.Dag.TipBase.Visit.{
  self, along, at_genesis, IsTipBase, pruned_height-IsBase, KeepsBut, KeepsBut-put, kept, new,
  VisitedTips, visit_tips_lem, with_cache-ok, length-insert_base,
}

module _ {C K E : Type 0} ⦃e : Eq K⦄ (p : Provider K E) (lru : LruCache C (K × ℕ) (Base K))
    (height pruned_topoheight : ℕ) (hash : K) where
  -- What a visit of a block does.
  pub record Visited (x : K) (w w' : BaseWalk C K) : Type 0 where
    pub top : List K
    pub split : w'.stack ≡ top ++ w.stack
    pub past :
        (y : K)
        → In top y
        → (tips : List K) × (p.get_past_blocks_for_block_hash x ≡ ok tips)
          × In tips y
          × (contains y w'.processed ≡ false)
    pub few :
        (tips : List K) → p.get_past_blocks_for_block_hash x ≡ ok tips → length top ≤ length tips
    pub same : w'.processed ≡ extend w.processed (x ∷ [])
    pub added :
        (w'.bases ≡ w.bases)
        ⊎ ((b : Base K) × IsTipBase p height pruned_topoheight x b
            × (w'.bases ≡ insert_base b w.bases))
    pub keeps : KeepsBut p lru height pruned_topoheight hash w.cache w'.cache
    pub alive :
        (1 ≤ length w'.bases)
        ⊎ ((tips : List K) × (p.get_past_blocks_for_block_hash x ≡ ok tips)
            × ((y : K) × In tips y × (In w'.processed y ⊎ In top y)))

  Visited-found :
      (x : K) (b : Base K) (w : BaseWalk C K) (c : C)
      → IsTipBase p height pruned_topoheight x b
      → KeepsBut p lru height pruned_topoheight hash w.cache c
      → Visited x w (record w {
        bases = insert_base b w.bases;
        cache = c;
        processed = extend w.processed (x ∷ []);
      })
  Visited-found x b w c i k = record {
    top = [];
    split = refl;
    past = λ y m. cc m;
    few = λ tips q. omega arith;
    same = refl;
    added = inr (b, i, refl);
    keeps = k;
    alive = inl (length-insert_base p lru height pruned_topoheight hash b w.bases);
  }

  KeepsBut-get :
      (c c' : C) (x : K)
      → KeepsBut p lru height pruned_topoheight hash (lru.get c (x, height)).0 c'
      → KeepsBut p lru height pruned_topoheight hash c c'
  KeepsBut-get c c' x k y b h = elim (k y b h) [
    | inl q ↦ inl q
    | inr g ↦ inr (lru.get_keeps c (x, height) (y, height) b g)
  ]

  Visited-tips :
      (x t : K) (tips : List K) (w w' : BaseWalk C K)
      → p.get_past_blocks_for_block_hash x ≡ ok (t ∷ tips)
      → VisitedTips p lru height pruned_topoheight hash
          (t ∷ tips)
          (record w {
            processed = extend w.processed (x ∷ []);
            cache = (lru.get w.cache (x, height)).0;
          })
          w'
      → Visited x w w'
  Visited-tips x t tips w w' q v = record {
    top = v.top;
    split = v.split;
    past = λ y m. (
      t ∷ tips,
      q,
      (v.from_tips y m).0,
      subst (λ l. contains y l ≡ false) (sym v.same) (v.from_tips y m).1,
    );
    few = λ tips' k. subst (λ l. length v.top ≤ length l) (ok_injective q k) v.few;
    same = v.same;
    added = elim v.added [
      | kept k ↦ inl k
      | new b m i k ↦ inr (b, record { reached = along (t ∷ tips) self q m; base = i }, k)
    ];
    keeps = KeepsBut-get w.cache w'.cache x v.keeps;
    alive = elim v.alive [
      | inl l ↦ inl l
      | inr a ↦ inr (
        t ∷ tips,
        q,
        (
          t,
          ground (arith, beq_refl e t),
          subst (λ l. In l t ⊎ In v.top t) (sym v.same) (a t (ground (arith, beq_refl e t))),
        ),
      )
    ];
  }

  visit_past_lem :
      (x : K) (tips : List K) (w w' : BaseWalk C K)
      → p.get_past_blocks_for_block_hash x ≡ ok tips
      → visit_past p lru height pruned_topoheight hash x tips (record w {
        processed = extend w.processed (x ∷ []);
        cache = (lru.get w.cache (x, height)).0;
      })
        ≡ ok w'
      → Visited x w w'
  unfolding visit_past
  visit_past_lem x [] w w' q h = subst (Visited x w) (ok_injective refl h) (
      Visited-found x (x, 0) w _ (record { reached = self; base = at_genesis x q })
        (KeepsBut-get w.cache _ x (
          KeepsBut-put p lru height pruned_topoheight hash (lru.get w.cache (x, height)).0
            (x, height))))
  visit_past_lem x (t ∷ tips) w w' q h =
      Visited-tips x t tips w w' q
        (visit_tips_lem p lru height pruned_topoheight hash (t ∷ tips) _ w' h)

  visit_cached_lem :
      (x : K) (found : Option (Base K)) (w w' : BaseWalk C K)
      → ((b : Base K) → found ≡ some b → IsTipBase p height pruned_topoheight x b)
      → visit_cached p lru height pruned_topoheight hash x found (record w {
        processed = extend w.processed (x ∷ []);
        cache = (lru.get w.cache (x, height)).0;
      })
        ≡ ok w'
      → Visited x w w'
  unfolding visit_cached
  visit_cached_lem x (some b) w w' s h =
      subst (Visited x w) (ok_injective refl h)
        (Visited-found x b w _ (s b refl) (KeepsBut-get w.cache _ x (λ y b' g. inr g)))
  visit_cached_lem x none w w' s h =
      let (tips, q, r) =
        with_cache-ok (lru.get w.cache (x, height)).0 (p.get_past_blocks_for_block_hash x) _ h in
      visit_past_lem x tips w w' q r

  visit_unpruned_lem :
      (x : K) (found : Option ℕ) (w w' : BaseWalk C K)
      → pruned_height p pruned_topoheight x ≡ ok found
      → ((b : Base K)
          → (lru.get w.cache (x, height)).1 ≡ some b
          → IsTipBase p height pruned_topoheight x b)
      → visit_unpruned p lru height pruned_topoheight hash x found
          (record w { processed = extend w.processed (x ∷ []) })
        ≡ ok w'
      → Visited x w w'
  unfolding visit_unpruned
  visit_unpruned_lem x (some n) w w' q s h = subst (Visited x w) (ok_injective refl h) (
      Visited-found x (x, n) w w.cache
        (record { reached = self; base = pruned_height-IsBase p height pruned_topoheight x n q })
        (λ y b g. inr g))
  visit_unpruned_lem x none w w' q s h = visit_cached_lem x (lru.get w.cache (x, height)).1 w w' s h

  pub visit_lem :
      (x : K) (w w' : BaseWalk C K)
      → ((b : Base K)
          → (lru.get w.cache (x, height)).1 ≡ some b
          → IsTipBase p height pruned_topoheight x b)
      → visit p lru height pruned_topoheight hash x w ≡ ok w'
      → Visited x w w'
  unfolding visit
  visit_lem x w w' s h =
      let (found, q, r) = with_cache-ok w.cache (pruned_height p pruned_topoheight x) _ h in
      visit_unpruned_lem x found w w' q s r
