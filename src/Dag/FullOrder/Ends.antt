-- ===== src/Dag/FullOrder/Ends.antt =====
-- What `generate_full_order` returns is the full order of its block, and with enough fuel it returns.
use xelis_blockchain.Prelude.{
  ℕ, zero, suc, ◌<◌, ◌≡◌, refl, sym, ap, subst, inl, inr, Option, none, some, List, [], ◌∷◌, arith,
}
use xelis_blockchain.Prelude.Results.{Result, ok, err}
use xelis_blockchain.Prelude.Equality.{Eq, IsDistinct, beq_refl}
use xelis_blockchain.BlockDag.{Ord}
use xelis_blockchain.Dag.{Provider, Ask}
use xelis_blockchain.Dag.Compare.{In}
use xelis_blockchain.Dag.FullOrder.{
  LruCache, CacheKey, Walk, order_loop, advance, generate_full_order, put_order,
}
use xelis_blockchain.Dag.FullOrder.Step.{IsDep, Reaches, self, advance_step}
use xelis_blockchain.Dag.FullOrder.Loop.{IsFullOrder, IsSound, IsSound-put, Inv}
use xelis_blockchain.Dag.FullOrder.Rounds.{Inv-step}

returned :
    {X A : Type 0} {a b : A} {r : Option (Result X A)} → r ≡ some (ok a) → r ≡ some (ok b) → a ≡ b
returned h k = cc (h, k)

abbrev pub state : {C K : Type 0} → List K → List K → List K → C → Walk C K
state order stack processed c = record {
  full_order = order;
  stack = stack;
  processed = processed;
  cache = c;
}

module _ {C K E : Type 0} ⦃e : Eq K⦄ ⦃o : Ord K⦄ (p : Provider K E)
    (lru : LruCache C (CacheKey K) (List K)) (base : K) (base_height base_topo_height : ℕ)
    (height : K → ℕ) (hash : K)
    (rising : (x t : K) → IsDep p base base_topo_height x t → height t < height x) where
  round_ends :
      (r : Ask E (Walk C K)) (fuel : ℕ) (w' : Walk C K)
      → elim r [
        | err failure ↦ some (err failure)
        | ok next ↦ order_loop p lru base base_height base_topo_height fuel next
      ]
        ≡ some (ok w')
      → (next : Walk C K) × (r ≡ ok next)
        × (order_loop p lru base base_height base_topo_height fuel next ≡ some (ok w'))
  round_ends (err failure) fuel w' h = cc h
  round_ends (ok next) fuel w' h = (next, refl, h)

  at_end :
      (order processed : List K) (c : C) (w' : Walk C K)
      → Inv p lru base base_height base_topo_height height hash (state order [] processed c)
      → state order [] processed c ≡ w'
      → Inv p lru base base_height base_topo_height height hash w' × (w'.stack ≡ [])
  at_end order processed c w' i q = (
    subst (Inv p lru base base_height base_topo_height height hash) q i,
    ap (λ w. w.stack) (sym q),
  )

  loop_keeps :
      (fuel : ℕ) (order stack processed : List K) (c : C) (w' : Walk C K)
      → Inv p lru base base_height base_topo_height height hash (state order stack processed c)
      → order_loop p lru base base_height base_topo_height fuel (state order stack processed c)
        ≡ some (ok w')
      → Inv p lru base base_height base_topo_height height hash w' × (w'.stack ≡ [])
  unfolding order_loop
  loop_keeps zero order [] processed c w' i h = at_end order processed c w' i (returned refl h)
  loop_keeps (suc fuel) order [] processed c w' i h =
      at_end order processed c w' i (returned refl h)
  loop_keeps zero order (x ∷ stack) processed c w' i h = cc h
  loop_keeps (suc fuel) order (x ∷ stack) processed c w' i h =
      let (next, q, r) =
        round_ends
          (advance p lru base base_height base_topo_height x (state order stack processed c)) fuel
          w' h in
      let i' =
        Inv-step p lru base base_height base_topo_height height hash rising x stack order processed
          c next i
          (advance_step p lru base base_height base_topo_height x (state order stack processed c)
            next q) in
      loop_keeps fuel next.full_order next.stack next.processed next.cache w' i' r

  pub start-Inv :
      (c : C)
      → IsSound p lru base base_height base_topo_height c
      → Inv p lru base base_height base_topo_height height hash (state [] (hash ∷ []) [] c)
  start-Inv c s = record {
    follows = tt;
    distinct = tt;
    once = tt;
    ordered = λ x m. cc m;
    seen = λ x m. cc m;
    waiting = λ x m.
        subst (Reaches p base base_topo_height hash) ((e.beq_iff hash x).0 (ground (arith, m)))
          self;
    held = λ x m. cc m;
    started = inr (ground (arith, beq_refl e hash));
    sound = s;
  }

  -- In the end the hash is in the order, since nothing is left on the stack.
  end-IsFullOrder :
      (w : Walk C K)
      → Inv p lru base base_height base_topo_height height hash w
      → w.stack ≡ []
      → IsFullOrder p lru base base_height base_topo_height hash w.full_order
  end-IsFullOrder w i q = record {
    follows = i.follows;
    root = elim i.started [ inl m ↦ m | inr m ↦ cc (subst (λ l. In l hash) q m) ];
    reached = i.ordered;
  }

  put_order_ends :
      (r : Option (Ask E (Walk C K))) (order : List K) (c' : C)
      → put_order p lru base base_height base_topo_height hash r ≡ some (ok (order, c'))
      → (w : Walk C K) × (r ≡ some (ok w))
        × (w.full_order ≡ order)
        × (lru.put w.cache (hash, base, base_height) w.full_order ≡ c')
  unfolding put_order
  put_order_ends none order c' h = cc h
  put_order_ends (some (err failure)) order c' h = cc h
  put_order_ends (some (ok w)) order c' h = (w, refl, cc h, cc h)

  -- Where the heights of the blocks grow from considered tips to the block, and what the cache has for
  -- this base is right, an order that is returned has every block once, after all its considered tips,
  -- has the hash, and has no block that the hash does not reach by considered tips; what the cache then
  -- has for this base is right.
  pub generate_full_order-IsFullOrder :
      (fuel : ℕ) (c c' : C) (order : List K)
      → IsSound p lru base base_height base_topo_height c
      → generate_full_order p lru base base_height base_topo_height fuel c hash
        ≡ some (ok (order, c'))
      → IsFullOrder p lru base base_height base_topo_height hash order
        × IsDistinct order
        × IsSound p lru base base_height base_topo_height c'
  unfolding generate_full_order
  generate_full_order-IsFullOrder fuel c c' order s h =
      let (w, r, q, k) = put_order_ends _ order c' h in
      let (i, d) = loop_keeps fuel [] (hash ∷ []) [] c w (start-Inv c s) r in
      let f = end-IsFullOrder w i d in
      (
        subst (IsFullOrder p lru base base_height base_topo_height hash) q f,
        subst IsDistinct q i.distinct,
        subst (IsSound p lru base base_height base_topo_height) k (
            IsSound-put p lru base base_height base_topo_height w.cache hash w.full_order i.sound
              f),
      )
