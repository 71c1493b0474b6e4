-- ===== src/Dag/FullOrder/Loop.antt =====
-- What each round of the loop keeps.
use xelis_blockchain.Prelude.{
  ℕ, ◌≡◌, ap, subst, ◌⊎◌, inl, inr, some, List, [], ◌∷◌, arith, Bool-cases,
}
use xelis_blockchain.Prelude.Equality.{Eq, contains, IsDistinct, beq_refl}
use xelis_blockchain.Dag.{Provider, extend}
use xelis_blockchain.Dag.Compare.{In, contains-extend}
use xelis_blockchain.Dag.FullOrder.{LruCache, CacheKey, Walk}
use xelis_blockchain.Dag.FullOrder.Closed.{Follows, Follows-extend, extend-IsDistinct}
use xelis_blockchain.Dag.FullOrder.Step.{IsDep, Reaches, self}
use xelis_blockchain.Dag.FullOrder.Held.{Reaches-trans, Held, Held-pop}

module _ {C K E : Type 0} ⦃e : Eq K⦄ (p : Provider K E) (lru : LruCache C (CacheKey K) (List K))
    (base : K) (base_height base_topo_height : ℕ) where
  -- A block's full order: each block after its tips, the block itself, and no block but those that it
  -- reaches.
  pub record IsFullOrder (x : K) (order : List K) : Type 0 where
    pub follows : Follows (IsDep p base base_topo_height) [] order
    pub root : In order x
    pub reached : (y : K) → In order y → Reaches p base base_topo_height x y

  -- What the cache has for this base is right.
  abbrev pub IsSound : C → Type 0
  IsSound c =
      (x : K) (order : List K)
      → (lru.get c (x, base, base_height)).1 ≡ some order
      → IsFullOrder x order

  pub IsSound-get : (c : C) (key : CacheKey K) → IsSound c → IsSound (lru.get c key).0
  IsSound-get c key s x order h = s x order (lru.get_keeps c key (x, base, base_height) order h)

  pub IsSound-put :
      (c : C) (x : K) (order : List K)
      → IsSound c
      → IsFullOrder x order
      → IsSound (lru.put c (x, base, base_height) order)
  IsSound-put c x order s f y other h =
      elim (lru.put_adds c (x, base, base_height) (y, base, base_height) order other h) [
        | inl (k, v) ↦
            subst (λ z. IsFullOrder z other) (ap (λ t. t.0) k) (subst (IsFullOrder x) v f)
        | inr (d, g) ↦ s y other g
      ]

  pub leaf-IsFullOrder :
      (x : K) → ((t : K) → ¬ IsDep p base base_topo_height x t) → IsFullOrder x (x ∷ [])
  leaf-IsFullOrder x alone = record {
    follows = (λ t d. absurd (alone t d), tt);
    root = ground (arith, beq_refl e x);
    reached = λ y m.
        subst (Reaches p base base_topo_height x) ((e.beq_iff x y).0 (ground (arith, m))) self;
  }

  module _ (height : K → ℕ) (hash : K) where
    pub record Inv (w : Walk C K) : Type 0 where
      pub follows : Follows (IsDep p base base_topo_height) [] w.full_order
      pub distinct : IsDistinct w.full_order
      pub once : IsDistinct w.processed
      pub ordered : (x : K) → In w.full_order x → Reaches p base base_topo_height hash x
      pub seen : (x : K) → In w.processed x → Reaches p base base_topo_height hash x
      pub waiting : (x : K) → In w.stack x → Reaches p base base_topo_height hash x
      pub held :
          (x : K)
          → In w.processed x
          → In w.full_order x ⊎ Held p base base_topo_height height x w.stack w.full_order
      pub started : In w.full_order hash ⊎ In w.stack hash
      pub sound : IsSound w.cache

    -- A block leaves the stack, and blocks that bring their tips along are added to the order.
    pub Inv-grow :
        (x : K) (stack order processed xs : List K) (c c' : C)
        → Inv (record { full_order = order; stack = x ∷ stack; processed = processed; cache = c })
        → Follows (IsDep p base base_topo_height) order xs
        → In xs x
        → ((y : K) → In xs y → Reaches p base base_topo_height x y)
        → IsSound c'
        → Inv (record {
          full_order = extend order xs;
          stack = stack;
          processed = processed;
          cache = c';
        })
    Inv-grow x stack order processed xs c c' i f m r s =
        let grown = λ (t : K). contains-extend t order xs in
        let here = i.waiting x (ground (arith, beq_refl e x)) in
        record {
          follows =
              Follows-extend (IsDep p base base_topo_height) order order xs i.follows f (λ t k. k);
          distinct = extend-IsDistinct order xs i.distinct;
          once = i.once;
          ordered = λ y k. elim (Bool-cases (contains y order)) [
            | inl o ↦ i.ordered y o
            | inr o ↦
                Reaches-trans p base base_topo_height here (r y (ground (arith, grown y, k, o)))
          ];
          seen = i.seen;
          waiting = λ y k. i.waiting y (ground (arith, k));
          held = λ y k. elim (i.held y k) [
            | inl o ↦ inl (ground (arith, grown y, o))
            | inr h ↦
                Held-pop p base base_topo_height height x y stack order (extend order xs) h
                  (λ t o. ground (arith, grown t, o)) (ground (arith, grown x, m))
          ];
          started = elim (Bool-cases (e.beq x hash)) [
            | inl q ↦
                inl (
                  subst (In (extend order xs)) ((e.beq_iff x hash).0 q)
                    (ground (arith, grown x, m)))
            | inr q ↦ ground (arith, i.started, grown hash, q)
          ];
          sound = s;
        }
