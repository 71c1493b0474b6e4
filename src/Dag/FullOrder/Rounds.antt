-- ===== src/Dag/FullOrder/Rounds.antt =====
-- A block goes back on the stack below its tips, and each round keeps the invariant.
use xelis_blockchain.Prelude.{
  ℕ, ◌<◌, ◌≡◌, refl, subst, inl, inr, false, List, [], ◌∷◌, ◌++◌, arith, Bool-cases,
}
use xelis_blockchain.Prelude.Results.{ok, ok_injective}
use xelis_blockchain.Prelude.Equality.{Eq, contains, beq_refl, contains-append}
use xelis_blockchain.BlockDag.{Ord}
use xelis_blockchain.Dag.{Provider, extend}
use xelis_blockchain.Dag.Compare.{In, contains-extend}
use xelis_blockchain.Dag.FullOrder.{LruCache, CacheKey, Walk}
use xelis_blockchain.Dag.FullOrder.Closed.{Follows-closed, extend-IsDistinct, Follows-more}
use xelis_blockchain.Dag.FullOrder.Scores.{IsScored}
use xelis_blockchain.Dag.FullOrder.Step.{
  IsDep, Reaches, self, along, Step, again, cached, leaf, push,
}
use xelis_blockchain.Dag.FullOrder.Held.{Held, Held-push, Held-ready}
use xelis_blockchain.Dag.FullOrder.Loop.{
  IsSound, IsSound-get, IsSound-put, leaf-IsFullOrder, Inv, Inv-grow,
}

module _ {C K E : Type 0} ⦃e : Eq K⦄ ⦃o : Ord K⦄ (p : Provider K E)
    (lru : LruCache C (CacheKey K) (List K)) (base : K) (base_height base_topo_height : ℕ)
    (height : K → ℕ) (hash : K)
    (rising : (x t : K) → IsDep p base base_topo_height x t → height t < height x) where
  -- A block goes back on the stack below its tips.
  Inv-push :
      (x : K) (stack order processed tips top : List K) (c c' : C)
      → Inv p lru base base_height base_topo_height height hash
          (record { full_order = order; stack = x ∷ stack; processed = processed; cache = c })
      → contains x processed ≡ false
      → p.get_past_blocks_for_block_hash x ≡ ok tips
      → e.beq x base ≡ false
      → IsScored p base_topo_height tips top
      → IsSound p lru base base_height base_topo_height c'
      → Inv p lru base base_height base_topo_height height hash (record {
        full_order = order;
        stack = top ++ x ∷ stack;
        processed = extend processed (x ∷ []);
        cache = c';
      })
  Inv-push x stack order processed tips top c c' i n q b scored s =
      let added = λ (y : K). contains-extend y processed (x ∷ []) in
      let here = i.waiting x (ground (arith, beq_refl e x)) in
      let dep : (t : K) → In top t → IsDep p base base_topo_height x t = λ t m. record {
        tips = tips;
        known = q;
        inside = (scored.from_tips t m).0;
        above = b;
        considered = (scored.from_tips t m).1;
      } in
      record {
        follows = i.follows;
        distinct = i.distinct;
        once = extend-IsDistinct processed (x ∷ []) i.once;
        ordered = i.ordered;
        seen = λ y k. elim (Bool-cases (e.beq x y)) [
          | inl f ↦ subst (Reaches p base base_topo_height hash) ((e.beq_iff x y).0 f) here
          | inr f ↦ i.seen y (ground (arith, added y, k, f))
        ];
        waiting = λ y k. elim (Bool-cases (contains y top)) [
          | inl m ↦ along here (dep y m)
          | inr m ↦ i.waiting y (ground (arith, contains-append y top (x ∷ stack), k, m))
        ];
        held = λ y k. elim (Bool-cases (e.beq x y)) [
          | inl f ↦ inr (
              subst (λ z. Held p base base_topo_height height z (top ++ x ∷ stack) order)
                ((e.beq_iff x y).0 f)
                (record {
                  above = top;
                  below = stack;
                  split = refl;
                  lower = λ t m. rising x t (dep t m);
                  waits = λ t d. inr (
                      scored.taken t (subst (λ l. In l t) (ok_injective d.known q) d.inside)
                        d.considered);
                }))
          | inr f ↦ elim (i.held y (ground (arith, added y, k, f))) [
            | inl o ↦ inl o
            | inr h ↦ inr (
                Held-push p base base_topo_height height x y stack order top h
                  (λ z. cc (f, (e.beq_iff x y).1 z)) (λ t m. rising x t (dep t m)))
          ]
        ];
        started = elim i.started [
          | inl o ↦ inl o
          | inr m ↦ inr (ground (arith, contains-append hash top (x ∷ stack), m))
        ];
        sound = s;
      }

  ready :
      (x : K) (stack order processed : List K) (c : C)
      → Inv p lru base base_height base_topo_height height hash
          (record { full_order = order; stack = x ∷ stack; processed = processed; cache = c })
      → In processed x
      → (t : K) → IsDep p base base_topo_height x t
      → In order t
  ready x stack order processed c i m t d = elim (i.held x m) [
    | inl o ↦ Follows-closed (IsDep p base base_topo_height) [] order i.follows x t o d
    | inr h ↦ Held-ready p base base_topo_height height x stack order h t d
  ]

  pub Inv-step :
      (x : K) (stack order processed : List K) (c : C) (w' : Walk C K)
      → Inv p lru base base_height base_topo_height height hash
          (record { full_order = order; stack = x ∷ stack; processed = processed; cache = c })
      → Step p lru base base_height base_topo_height x
          (record { full_order = order; stack = stack; processed = processed; cache = c })
          w'
      → Inv p lru base base_height base_topo_height height hash w'
  Inv-step x stack order processed c w' i (again m) =
      Inv-grow p lru base base_height base_topo_height height hash x stack order processed (x ∷ [])
        c c i (ready x stack order processed c i m, tt) (ground (arith, beq_refl e x))
        (λ y k.
          subst (Reaches p base base_topo_height x) ((e.beq_iff x y).0 (ground (arith, k))) self)
        i.sound
  Inv-step x stack order processed c w' i (cached found q) =
      let f = i.sound x found q in
      Inv-grow p lru base base_height base_topo_height height hash x stack order processed found c
        (lru.get c (x, base, base_height)).0 i
        (Follows-more (IsDep p base base_topo_height) [] order found (λ t m. cc m) f.follows) f.root
        f.reached
        (IsSound-get p lru base base_height base_topo_height c (x, base, base_height) i.sound)
  Inv-step x stack order processed c w' i (leaf alone) =
      let f = leaf-IsFullOrder p lru base base_height base_topo_height x alone in
      let kept =
        IsSound-get p lru base base_height base_topo_height c (x, base, base_height) i.sound in
      Inv-grow p lru base base_height base_topo_height height hash x stack order processed (x ∷ [])
        c _ i
        (Follows-more (IsDep p base base_topo_height) [] order (x ∷ []) (λ t m. cc m) f.follows)
        f.root f.reached
        (IsSound-put p lru base base_height base_topo_height (lru.get c (x, base, base_height)).0 x
          (x ∷ []) kept f)
  Inv-step x stack order processed c w' i (push tips top n q b scored) =
      Inv-push x stack order processed tips top c (lru.get c (x, base, base_height)).0 i n q b
        scored
        (IsSound-get p lru base base_height base_topo_height c (x, base, base_height) i.sound)
