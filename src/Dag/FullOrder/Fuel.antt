-- ===== src/Dag/FullOrder/Fuel.antt =====
-- `generate_full_order` returns: how much fuel its loop needs.
use xelis_blockchain.Prelude.{
  ℕ, zero, suc, ◌+◌, ◌-◌, ◌*◌, ◌≤◌, ◌<◌, ◌≡◌, refl, some, List, [], ◌∷◌, arith, length,
  length-append,
}
use xelis_blockchain.Prelude.Results.{ok}
use xelis_blockchain.Prelude.Equality.{Eq, IsDistinct, beq_refl}
use xelis_blockchain.BlockDag.{Ord}
use xelis_blockchain.Dag.{Provider, extend}
use xelis_blockchain.Dag.Compare.{In}
use xelis_blockchain.Dag.FullOrder.{
  LruCache, CacheKey, Walk, order_loop, generate_full_order, put_order,
}
use xelis_blockchain.Dag.FullOrder.Closed.{length-subset, length-extend_new}
use xelis_blockchain.Dag.FullOrder.Step.{
  IsDep, Reaches, Step, again, cached, leaf, push, advance_step,
}
use xelis_blockchain.Dag.FullOrder.Known.{IsKnown, advance_known}
use xelis_blockchain.Dag.FullOrder.Loop.{IsFullOrder, IsSound, Inv}
use xelis_blockchain.Dag.FullOrder.Rounds.{Inv-step}
use xelis_blockchain.Dag.FullOrder.Ends.{state, start-Inv, generate_full_order-IsFullOrder}

module _ {C K E : Type 0} ⦃e : Eq K⦄ ⦃o : Ord K⦄ (p : Provider K E)
    (lru : LruCache C (CacheKey K) (List K)) (base : K) (base_height base_topo_height : ℕ)
    (hash : K) where
  -- The blocks that the hash reaches: they are in a list, the storage knows them, and none has more than
  -- `most` tips.
  pub record IsBounded (blocks : List K) (most : ℕ) : Type 0 where
    pub listed : (x : K) → Reaches p base base_topo_height hash x → In blocks x
    pub known : (x : K) → Reaches p base base_topo_height hash x → IsKnown p base_topo_height x
    pub few :
        (x : K) (tips : List K)
        → Reaches p base base_topo_height hash x
        → p.get_past_blocks_for_block_hash x ≡ ok tips
        → length tips ≤ most

  module _ (height : K → ℕ)
      (rising : (x t : K) → IsDep p base base_topo_height x t → height t < height x)
      (blocks : List K) (most : ℕ) (bound : IsBounded blocks most) where
    -- The fuel that a state needs, where `n` blocks may still be processed.
    record Enough (fuel : ℕ) (w : Walk C K) : Type 0 where
      rounds : ℕ
      left : length blocks ≤ length w.processed + rounds
      enough : length w.stack + suc most * rounds ≤ fuel

    spend :
        (m n s top f : ℕ)
        → 1 ≤ n
        → suc s + suc m * n ≤ suc f
        → top ≤ m
        → top + suc s + suc m * (n - 1) ≤ f
    spend m zero s top f q h l = omega (arith, q)
    spend m (suc n) s top f q h l = grind (arith, h, l)

    Enough-step :
        (fuel : ℕ) (x : K) (stack order processed : List K) (c : C) (w' : Walk C K)
        → Inv p lru base base_height base_topo_height height hash
            (state order (x ∷ stack) processed c)
        → Inv p lru base base_height base_topo_height height hash w'
        → Enough (suc fuel) (state order (x ∷ stack) processed c)
        → Step p lru base base_height base_topo_height x (state order stack processed c) w'
        → Enough fuel w'
    Enough-step fuel x stack order processed c w' i i' n (again m) = record {
      rounds = n.rounds;
      left = n.left;
      enough = omega (arith, n.enough);
    }
    Enough-step fuel x stack order processed c w' i i' n (cached found q) = record {
      rounds = n.rounds;
      left = n.left;
      enough = omega (arith, n.enough);
    }
    Enough-step fuel x stack order processed c w' i i' n (leaf alone) = record {
      rounds = n.rounds;
      left = n.left;
      enough = omega (arith, n.enough);
    }
    Enough-step fuel x stack order processed c w' i i' n (push tips top new q b scored) =
        let here = i.waiting x (ground (arith, beq_refl e x)) in
        let grown = length-extend_new processed x new in
        let size =
          length-subset (extend processed (x ∷ [])) blocks i'.once
            (λ z m. bound.listed z (i'.seen z m)) in
        let few = bound.few x tips here q in
        record {
          rounds = n.rounds - 1;
          left = omega (arith, n.left, grown, size);
          enough = omega (
            arith,
            length-append top (x ∷ stack),
            spend most n.rounds (length stack) (length top) fuel
                (omega (arith, n.left, grown, size)) n.enough (omega (arith, few, scored.size)),
          );
        }

    loop_returns :
        (fuel : ℕ) (order stack processed : List K) (c : C)
        → Inv p lru base base_height base_topo_height height hash (state order stack processed c)
        → Enough fuel (state order stack processed c)
        → (w' : Walk C K) × (order_loop p lru base base_height base_topo_height fuel
              (state order stack processed c)
            ≡ some (ok w'))
    unfolding order_loop
    loop_returns zero order [] processed c i n = (_, refl)
    loop_returns (suc fuel) order [] processed c i n = (_, refl)
    loop_returns zero order (x ∷ stack) processed c i n = absurd (omega (arith, n.enough))
    loop_returns (suc fuel) order (x ∷ stack) processed c i n =
        let w = state order stack processed c in
        let (next, q) =
          advance_known p lru base base_height base_topo_height x w
            (bound.known x (i.waiting x (ground (arith, beq_refl e x)))) in
        let s = advance_step p lru base base_height base_topo_height x w next q in
        let i' =
          Inv-step p lru base base_height base_topo_height height hash rising x stack order
            processed c next i s in
        let (w', r) =
          loop_returns fuel next.full_order next.stack next.processed next.cache i'
            (Enough-step fuel x stack order processed c next i i' n s) in
        (w', rw q r)

    -- Under these conditions, with a storage that knows the blocks that the hash reaches and a list
    -- `blocks` that has them, none with more than `most` tips, and with one round of fuel and
    -- `1 + most` more for each of them, a full order of the hash is returned, with every block once.
    pub generate_full_order_returns :
        (fuel : ℕ) (c : C)
        → IsSound p lru base base_height base_topo_height c
        → suc (suc most * length blocks) ≤ fuel
        → (order : List K) × (c' : C) × (generate_full_order p lru base base_height base_topo_height
              fuel c hash
            ≡ some (ok (order, c')))
          × IsFullOrder p lru base base_height base_topo_height hash order
          × IsDistinct order
    unfolding generate_full_order put_order
    generate_full_order_returns fuel c s enough =
        let (w, r) =
          loop_returns fuel [] (hash ∷ []) [] c
            (start-Inv p lru base base_height base_topo_height height hash rising c s)
            (record {
              rounds = length blocks;
              left = omega arith;
              enough = omega (arith, enough);
            }) in
        let done : generate_full_order p lru base base_height base_topo_height fuel c hash
            ≡ some (ok (w.full_order, lru.put w.cache (hash, base, base_height) w.full_order)) =
          rw r refl in
        let (f, d, k) =
          generate_full_order-IsFullOrder p lru base base_height base_topo_height height hash rising
            fuel c _ w.full_order s done in
        (w.full_order, _, done, f, d)
