-- ===== src/Dag/TipBase/Visit.antt =====
-- What a visit of a block adds to the stack, to the bases and to the cache.
use xelis_blockchain.Prelude.{
  ℕ, ◌≤◌, ◌<◌, ◌≡◌, refl, sym, ap, ◌∙◌, subst, ◌⊎◌, inl, inr, Bool, true, false, ◌&&◌, Option, none,
  some, List, [], ◌∷◌, ◌++◌, append_assoc, arith, ltb, leb, if◌then◌else◌, Bool-cases, length,
  length-append,
}
use xelis_blockchain.Prelude.Results.{ok, err, ◌>>=◌, >>=-eq-ok, ok_injective, if_cases}
use xelis_blockchain.Prelude.Equality.{Eq, contains, beq_refl, contains-append}
use xelis_blockchain.Dag.{Provider, Ask, is_sync_block_at_height}
use xelis_blockchain.Dag.Compare.{In}
use xelis_blockchain.Dag.FullOrder.{LruCache}
use xelis_blockchain.Dag.TipBase.{
  Base, Cached, with_cache, BaseWalk, insert_base, pruned_height, visit_tips, has_base,
}

pub with_cache-ok :
    {C E A B : Type 0} (c : C) (r : Ask E A) (next : A → Cached C E B) {b : B}
    → (with_cache c r >>= next) ≡ ok b
    → (a : A) × (r ≡ ok a) × (next a ≡ ok b)
with_cache-ok c (err failure) next h = cc h
with_cache-ok c (ok a) next h = (a, refl, h)

module _ {K E : Type 0} ⦃e : Eq K⦄ (p : Provider K E) where
  pub data Ancestor (x : K) : K → Type 0 where
    self : Ancestor x x
    along :
        {y z : K} (tips : List K)
        → Ancestor x y
        → p.get_past_blocks_for_block_hash y ≡ ok tips
        → In tips z
        → Ancestor x z

  module _ (height pruned_topoheight : ℕ) where
    -- Why a block is a base: it is pruned, it is the first block, or it is a sync block.
    pub data IsBase : Base K → Type 0 where
      at_pruned :
          (b : K) (t n : ℕ)
          → 0 < pruned_topoheight
          → p.is_block_topological_ordered b ≡ true
          → p.get_topo_height_for_hash b ≡ ok t
          → t ≤ pruned_topoheight
          → p.get_height_for_block_hash b ≡ ok n
          → IsBase (b, n)
      at_genesis : (b : K) → p.get_past_blocks_for_block_hash b ≡ ok [] → IsBase (b, 0)
      at_sync :
          (b : K) (n : ℕ)
          → is_sync_block_at_height p b height ≡ ok true
          → p.get_height_for_block_hash b ≡ ok n
          → IsBase (b, n)

    -- A base of a block: one at the end of a way down from it.
    pub record IsTipBase (x : K) (b : Base K) : Type 0 where
      pub reached : Ancestor x b.0
      pub base : IsBase b

    pub pruned_height-IsBase :
        (b : K) (n : ℕ) → pruned_height p pruned_topoheight b ≡ ok (some n) → IsBase (b, n)
    unfolding pruned_height
    pruned_height-IsBase b n h =
        elim (if_cases (ltb 0 pruned_topoheight && p.is_block_topological_ordered b) h) [
          | inr (c, r) ↦ cc r
          | inl (c, r) ↦
              let (t, q, s) = >>=-eq-ok (p.get_topo_height_for_hash b) _ r in
              elim (if_cases (leb t pruned_topoheight) s) [
                | inr (d, f) ↦ cc f
                | inl (d, f) ↦
                    let (m, k, g) = >>=-eq-ok (p.get_height_for_block_hash b) _ f in
                    at_pruned b t n (ground (arith, c)) (ground (arith, c)) q (ground (arith, d))
                      (subst (λ l. p.get_height_for_block_hash b ≡ ok l) (cc g) k)
              ]
        ]

module _ {C K E : Type 0} ⦃e : Eq K⦄ (p : Provider K E) (lru : LruCache C (K × ℕ) (Base K))
    (height pruned_topoheight : ℕ) (hash : K) where
  -- The cache changes at no other block.
  abbrev pub KeepsBut : C → C → Type 0
  KeepsBut c c' =
      (x : K) (b : Base K)
      → (lru.get c' (x, height)).1 ≡ some b
      → (x ≡ hash) ⊎ ((lru.get c (x, height)).1 ≡ some b)

  pub KeepsBut-put : (c : C) (b : Base K) → KeepsBut c (lru.put c (hash, height) b)
  KeepsBut-put c b x b' h = elim (lru.put_adds c (hash, height) (x, height) b b' h) [
    | inl (k, v) ↦ inl (sym (ap (λ t. t.0) k))
    | inr (d, g) ↦ inr g
  ]

  pub length-insert_base : (b : Base K) (bs : List (Base K)) → 1 ≤ length (insert_base b bs)
  unfolding insert_base has_base
  length-insert_base b [] = omega arith
  length-insert_base b (x ∷ bs) = elim (Bool-cases (has_base b (x ∷ bs))) [
    | inl q ↦ rw q (omega arith)
    | inr q ↦ rw q (omega (arith, length-append (x ∷ bs) (b ∷ [])))
  ]

  -- The bases are as before, or one of the blocks `xs` has become a base.
  pub data Added (xs : List K) (bases bases' : List (Base K)) : Type 0 where
    kept : bases' ≡ bases → Added xs bases bases'
    new :
        (b : Base K)
        → In xs b.0
        → IsBase p height pruned_topoheight b
        → bases' ≡ insert_base b bases
        → Added xs bases bases'

  Added-more :
      (x : K) (xs : List K) (bases bases' : List (Base K))
      → Added xs bases bases'
      → Added (x ∷ xs) bases bases'
  Added-more x xs bases bases' (kept q) = kept q
  Added-more x xs bases bases' (new b m i q) = new b (ground (arith, m)) i q

  pub record VisitedTips (tips : List K) (w w' : BaseWalk C K) : Type 0 where
    pub top : List K
    pub split : w'.stack ≡ top ++ w.stack
    pub from_tips : (y : K) → In top y → In tips y × (contains y w.processed ≡ false)
    pub few : length top ≤ length tips
    pub same : w'.processed ≡ w.processed
    pub added : Added tips w.bases w'.bases
    pub keeps : KeepsBut w.cache w'.cache
    pub alive : (1 ≤ length w'.bases) ⊎ ((y : K) → In tips y → In w.processed y ⊎ In top y)

  -- A base among the tips ends the visit.
  VisitedTips-found :
      (x : K) (n : ℕ) (tips : List K) (w : BaseWalk C K) (c : C)
      → IsBase p height pruned_topoheight (x, n)
      → KeepsBut w.cache c
      → VisitedTips (x ∷ tips) w (record w { bases = insert_base (x, n) w.bases; cache = c })
  VisitedTips-found x n tips w c i k = record {
    top = [];
    split = refl;
    from_tips = λ y m. cc m;
    few = omega arith;
    same = refl;
    added = new (x, n) (ground (arith, beq_refl e x)) i refl;
    keeps = k;
    alive = inl (length-insert_base (x, n) w.bases);
  }

  VisitedTips-next :
      (x : K) (tips : List K) (w w' : BaseWalk C K)
      → VisitedTips tips
          (record w { stack = if contains x w.processed then w.stack else x ∷ w.stack })
          w'
      → VisitedTips (x ∷ tips) w w'
  VisitedTips-next x tips w w' v = elim (Bool-cases (contains x w.processed)) [
    | inl q ↦ record {
      top = v.top;
      split = rw q at (v.split);
      from_tips = λ y m. ground (arith, v.from_tips y m);
      few = omega (arith, v.few);
      same = v.same;
      added = Added-more x tips w.bases w'.bases v.added;
      keeps = v.keeps;
      alive = elim v.alive [
        | inl l ↦ inl l
        | inr a ↦ inr (λ y m. elim (Bool-cases (e.beq x y)) [
          | inl f ↦ inl (subst (In w.processed) ((e.beq_iff x y).0 f) q)
          | inr f ↦ a y (ground (arith, m, f))
        ])
      ];
    }
    | inr q ↦ record {
      top = v.top ++ x ∷ [];
      split = rw q at (v.split) ∙ sym (append_assoc v.top (x ∷ []) w.stack);
      from_tips = λ y m. elim (Bool-cases (e.beq x y)) [
        | inl f ↦
            (ground (arith, f), subst (λ z. contains z w.processed ≡ false) ((e.beq_iff x y).0 f) q)
        | inr f ↦
            ground (arith, v.from_tips y (ground (arith, contains-append y v.top (x ∷ []), m, f)))
      ];
      few = omega (arith, v.few, length-append v.top (x ∷ []));
      same = v.same;
      added = Added-more x tips w.bases w'.bases v.added;
      keeps = v.keeps;
      alive = elim v.alive [
        | inl l ↦ inl l
        | inr a ↦ inr (λ y m. ground (arith, a y, m, contains-append y v.top (x ∷ [])))
      ];
    }
  ]

  abbrev sync_next : K → BaseWalk C K → Cached C E (BaseWalk C K) → Bool → Cached C E (BaseWalk C K)
  sync_next x w next is_sync = elim is_sync [
    | true ↦ with_cache w.cache (p.get_height_for_block_hash x) >>= λ block_height. ok (record w {
      cache = lru.put w.cache (hash, height) (x, block_height);
      bases = insert_base (x, block_height) w.bases;
    })
    | false ↦ next
  ]

  on_pruned :
      (x : K) (tips : List K) (w w' : BaseWalk C K) (found : Option ℕ)
      (next : Cached C E (BaseWalk C K))
      → pruned_height p pruned_topoheight x ≡ ok found
      → (elim found [ some n ↦ ok (record w { bases = insert_base (x, n) w.bases }) | none ↦ next ])
        ≡ ok w'
      → (next ≡ ok w' → VisitedTips (x ∷ tips) w w')
      → VisitedTips (x ∷ tips) w w'
  on_pruned x tips w w' none next q h rest = rest h
  on_pruned x tips w w' (some n) next q h rest =
      subst (VisitedTips (x ∷ tips) w) (ok_injective refl h) (
        VisitedTips-found x n tips w w.cache (pruned_height-IsBase p height pruned_topoheight x n q)
          (λ y b g. inr g))

  on_sync :
      (x : K) (tips : List K) (w w' : BaseWalk C K) (is_sync : Bool)
      (next : Cached C E (BaseWalk C K))
      → is_sync_block_at_height p x height ≡ ok is_sync
      → sync_next x w next is_sync ≡ ok w'
      → (next ≡ ok w' → VisitedTips (x ∷ tips) w w')
      → VisitedTips (x ∷ tips) w w'
  on_sync x tips w w' false next q h rest = rest h
  on_sync x tips w w' true next q h rest =
      let (n, k, r) = with_cache-ok w.cache (p.get_height_for_block_hash x) _ h in
      subst (VisitedTips (x ∷ tips) w) (ok_injective refl r) (
        VisitedTips-found x n tips w (lru.put w.cache (hash, height) (x, n)) (at_sync x n q k)
          (KeepsBut-put w.cache (x, n)))

  pub visit_tips_lem :
      (tips : List K) (w w' : BaseWalk C K)
      → visit_tips p lru height pruned_topoheight hash tips w ≡ ok w'
      → VisitedTips tips w w'
  unfolding visit_tips
  visit_tips_lem [] w w' h = subst (VisitedTips [] w) (ok_injective refl h) (record {
    top = [];
    split = refl;
    from_tips = λ y m. cc m;
    few = omega arith;
    same = refl;
    added = kept refl;
    keeps = λ x b g. inr g;
    alive = inr (λ y m. cc m);
  })
  visit_tips_lem (x ∷ tips) w w' h =
      let w1 : BaseWalk C K = record w {
        stack = if contains x w.processed then w.stack else x ∷ w.stack;
      } in
      let next = sync_next x w (visit_tips p lru height pruned_topoheight hash tips w1) in
      let (found, q, r) = with_cache-ok w.cache (pruned_height p pruned_topoheight x) _ h in
      on_pruned x tips w w' found (with_cache w.cache (is_sync_block_at_height p x height) >>= next)
        q r
        (λ r1.
          let (is_sync, k, r2) =
            with_cache-ok w.cache (is_sync_block_at_height p x height) next r1 in
          on_sync x tips w w' is_sync (visit_tips p lru height pruned_topoheight hash tips w1) k r2
            (λ r3. VisitedTips-next x tips w w' (visit_tips_lem tips w1 w' r3)))
