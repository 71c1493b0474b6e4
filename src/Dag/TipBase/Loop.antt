-- ===== src/Dag/TipBase/Loop.antt =====
-- What the search for a tip base returns is a tip base, and its cache stays right.
use xelis_blockchain.Prelude.{
  ℕ, ◌≤◌, ◌≡◌, refl, sym, ap, ◌∙◌, subst, ◌⊎◌, inl, inr, false, ◌||◌, some, List, [], ◌∷◌, arith,
  Bool-cases, length, All, All-append,
}
use xelis_blockchain.Prelude.Results.{ok}
use xelis_blockchain.Prelude.Equality.{Eq, contains, contains-append, beq_refl}
use xelis_blockchain.Dag.{Provider, extend}
use xelis_blockchain.Dag.Compare.{In, contains-extend}
use xelis_blockchain.Dag.FullOrder.{LruCache}
use xelis_blockchain.Dag.TipBase.{Base, BaseWalk, insert_base, visit, has_base}
use xelis_blockchain.Dag.TipBase.Visit.{Ancestor, self, along, IsTipBase, length-insert_base}
use xelis_blockchain.Dag.TipBase.Sound.{Visited, visit_lem}

abbrev pub state : {C K : Type 0} → List K → List (Base K) → List K → C → BaseWalk C K
state stack bases processed c = record {
  stack = stack;
  bases = bases;
  processed = processed;
  cache = c;
}

module _ {K E : Type 0} ⦃e : Eq K⦄ (p : Provider K E) where
  Ancestor-trans : {x y z : K} → Ancestor p x y → Ancestor p y z → Ancestor p x z
  Ancestor-trans a self = a
  Ancestor-trans a (along tips b q m) = along tips (Ancestor-trans a b) q m

module _ {C K E : Type 0} ⦃e : Eq K⦄ (p : Provider K E) (lru : LruCache C (K × ℕ) (Base K))
    (height pruned_topoheight : ℕ) where
  -- What the cache has for this height are tip bases.
  abbrev pub IsSound : C → Type 0
  IsSound c =
      (x : K) (b : Base K)
      → (lru.get c (x, height)).1 ≡ some b
      → IsTipBase p height pruned_topoheight x b

  module _ (hash : K) where
    -- An ancestor, one of whose tips is on the stack, or has been there.
    pub record IsOpen (x : K) (stack processed : List K) : Type 0 where
      pub from : Ancestor p hash x
      pub tip : K
      pub tips : List K
      pub past : p.get_past_blocks_for_block_hash x ≡ ok tips
      pub inside : In tips tip
      pub reached : In processed tip ⊎ In stack tip

    pub record Inv (w : BaseWalk C K) : Type 0 where
      pub waiting : (x : K) → In w.stack x → Ancestor p hash x
      pub bases : All (IsTipBase p height pruned_topoheight hash) w.bases
      pub first : In w.processed hash
      pub away : contains hash w.stack ≡ false
      pub sound :
          (x : K) (b : Base K)
          → (lru.get w.cache (x, height)).1 ≡ some b
          → (x ≡ hash) ⊎ IsTipBase p height pruned_topoheight x b
      pub alive : (1 ≤ length w.bases) ⊎ ((x : K) → In w.processed x → IsOpen x w.stack w.processed)

    insert_base-All :
        (P : Base K → Type 0) (b : Base K) (bs : List (Base K))
        → P b
        → All P bs
        → All P (insert_base b bs)
    unfolding insert_base
    insert_base-All P b bs h k = elim (Bool-cases (has_base b bs)) [
      | inl q ↦ rw q k
      | inr q ↦ rw q (All-append P bs (b ∷ []) k (h, tt))
    ]

    bases_more :
        (x : K) (w w' : BaseWalk C K)
        → Ancestor p hash x
        → All (IsTipBase p height pruned_topoheight hash) w.bases
        → Visited p lru height pruned_topoheight hash x w w'
        → All (IsTipBase p height pruned_topoheight hash) w'.bases
    bases_more x w w' a h v = elim v.added [
      | inl q ↦ subst (All (IsTipBase p height pruned_topoheight hash)) (sym q) h
      | inr (b, i, q) ↦ subst (All (IsTipBase p height pruned_topoheight hash)) (sym q) (
          insert_base-All (IsTipBase p height pruned_topoheight hash) b w.bases
            (record { reached = Ancestor-trans p a i.reached; base = i.base }) h)
    ]

    seen_after :
        (x y : K) (w w' : BaseWalk C K)
        → Visited p lru height pruned_topoheight hash x w w'
        → contains y w'.processed ≡ (contains y w.processed || e.beq x y)
    seen_after x y w w' v =
        ap (contains y) v.same ∙ ground (arith, contains-extend y w.processed (x ∷ []))

    stack_after :
        (x y : K) (w w' : BaseWalk C K) (v : Visited p lru height pruned_topoheight hash x w w')
        → contains y w'.stack ≡ (contains y v.top || contains y w.stack)
    stack_after x y w w' v = ap (contains y) v.split ∙ contains-append y v.top w.stack

    IsOpen-more :
        (x y : K) (w w' : BaseWalk C K)
        → Visited p lru height pruned_topoheight hash x w w'
        → IsOpen y (x ∷ w.stack) w.processed
        → IsOpen y w'.stack w'.processed
    IsOpen-more x y w w' v o = record {
      from = o.from;
      tip = o.tip;
      tips = o.tips;
      past = o.past;
      inside = o.inside;
      reached = ground (arith, o.reached, seen_after x o.tip w w' v, stack_after x o.tip w w' v);
    }

    opened :
        (x : K) (w w' : BaseWalk C K) (v : Visited p lru height pruned_topoheight hash x w w')
        (tips : List K) (t : K)
        → p.get_past_blocks_for_block_hash x ≡ ok tips
        → In tips t
        → In w'.processed t ⊎ In v.top t
        → Ancestor p hash x
        → IsOpen x w'.stack w'.processed
    opened x w w' v tips t q m r a = record {
      from = a;
      tip = t;
      tips = tips;
      past = q;
      inside = m;
      reached = ground (arith, r, stack_after x t w w' v);
    }

    bases_stay :
        (x : K) (w w' : BaseWalk C K)
        → Visited p lru height pruned_topoheight hash x w w'
        → 1 ≤ length w.bases
        → 1 ≤ length w'.bases
    bases_stay x w w' v l = elim v.added [
      | inl q ↦ subst (λ bs. 1 ≤ length bs) (sym q) l
      | inr (b, i, q) ↦
          subst (λ bs. 1 ≤ length bs) (sym q)
            (length-insert_base p lru height pruned_topoheight hash b w.bases)
    ]

    alive_after :
        (x : K) (w w' : BaseWalk C K)
        → Ancestor p hash x
        → Visited p lru height pruned_topoheight hash x w w'
        → (1 ≤ length w.bases) ⊎ ((y : K) → In w.processed y → IsOpen y (x ∷ w.stack) w.processed)
        → (1 ≤ length w'.bases) ⊎ ((y : K) → In w'.processed y → IsOpen y w'.stack w'.processed)
    alive_after x w w' a v (inl l) = inl (bases_stay x w w' v l)
    alive_after x w w' a v (inr h) = elim v.alive [
      | inl l ↦ inl l
      | inr (tips, q, (t, m, r)) ↦ inr (λ y k. elim (Bool-cases (e.beq x y)) [
        | inl f ↦
            subst (λ z. IsOpen z w'.stack w'.processed) ((e.beq_iff x y).0 f)
              (opened x w w' v tips t q m r a)
        | inr f ↦ IsOpen-more x y w w' v (h y (ground (arith, k, f, seen_after x y w w' v)))
      ])
    ]

    pushed_reached :
        (x y : K) (w w' : BaseWalk C K) (v : Visited p lru height pruned_topoheight hash x w w')
        → Ancestor p hash x
        → In v.top y
        → Ancestor p hash y
    pushed_reached x y w w' v a m = let (tips, q, inside, n) = v.past y m in along tips a q inside

    not_pushed :
        (x : K) (w w' : BaseWalk C K) (v : Visited p lru height pruned_topoheight hash x w w')
        → In w'.processed hash
        → contains hash v.top ≡ false
    not_pushed x w w' v h = elim (Bool-cases (contains hash v.top)) [
      | inl m ↦ let (tips, q, inside, n) = v.past hash m in cc (n, h)
      | inr m ↦ m
    ]

    -- One round.
    Inv-visit :
        (x : K) (w w' : BaseWalk C K)
        → Ancestor p hash x
        → ((y : K) → In w.stack y → Ancestor p hash y)
        → All (IsTipBase p height pruned_topoheight hash) w.bases
        → In (extend w.processed (x ∷ [])) hash
        → contains hash w.stack ≡ false
        → ((y : K) (b : Base K)
            → (lru.get w.cache (y, height)).1 ≡ some b
            → (y ≡ hash) ⊎ IsTipBase p height pruned_topoheight y b)
        → (1 ≤ length w.bases) ⊎ ((y : K) → In w.processed y → IsOpen y (x ∷ w.stack) w.processed)
        → Visited p lru height pruned_topoheight hash x w w'
        → Inv w'
    Inv-visit x w w' a waiting bases first away sound alive v = record {
      waiting = λ y m. elim (Bool-cases (contains y v.top)) [
        | inl k ↦ pushed_reached x y w w' v a k
        | inr k ↦ waiting y (ground (arith, m, k, stack_after x y w w' v))
      ];
      bases = bases_more x w w' a bases v;
      first = subst (λ l. In l hash) (sym v.same) first;
      away = ground (
        arith,
        away,
        stack_after x hash w w' v,
        not_pushed x w w' v (subst (λ l. In l hash) (sym v.same) first),
      );
      sound = λ y b h. elim (v.keeps y b h) [ inl q ↦ inl q | inr g ↦ sound y b g ];
      alive = alive_after x w w' a v alive;
    }

    pub Inv-next :
        (x : K) (rest processed : List K) (bases : List (Base K)) (c : C) (w' : BaseWalk C K)
        → Inv (state (x ∷ rest) bases processed c)
        → visit p lru height pruned_topoheight hash x (state rest bases processed c) ≡ ok w'
        → Inv w' × Visited p lru height pruned_topoheight hash x (state rest bases processed c) w'
    Inv-next x rest processed bases c w' i h =
        let w = state rest bases processed c in
        let other : ¬ (x ≡ hash) = λ q. cc (i.away, (e.beq_iff x hash).1 q) in
        let v =
          visit_lem p lru height pruned_topoheight hash x w w'
            (λ b g. elim (i.sound x b g) [ inl q ↦ absurd (other q) | inr t ↦ t ]) h in
        (
          Inv-visit x w w' (i.waiting x (ground (arith, beq_refl e x)))
              (λ y m. i.waiting y (ground (arith, m))) i.bases
              (ground (arith, contains-extend hash processed (x ∷ []), i.first))
              (ground (arith, i.away)) i.sound i.alive v,
          v,
        )

    pub Inv-first :
        (c : C) (w' : BaseWalk C K)
        → IsSound c
        → visit p lru height pruned_topoheight hash hash (state [] [] [] c) ≡ ok w'
        → Inv w' × Visited p lru height pruned_topoheight hash hash (state [] [] [] c) w'
    Inv-first c w' s h =
        let w = state [] [] [] c in
        let v = visit_lem p lru height pruned_topoheight hash hash w w' (λ b g. s hash b g) h in
        (
          Inv-visit hash w w' self (λ y m. cc m) tt
              (ground (arith, contains-extend hash [] (hash ∷ []), beq_refl e hash)) refl
              (λ y b g. inr (s y b g)) (inr (λ y m. cc m)) v,
          v,
        )
