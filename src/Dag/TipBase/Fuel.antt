-- ===== src/Dag/TipBase/Fuel.antt =====
-- `find_tip_base` returns: how much fuel its loop needs, and why there is a base in the end.
use xelis_blockchain.Prelude.{
  ℕ, zero, suc, ◌≤◌, ◌<◌, ◌≡◌, refl, sym, ap, ◌∙◌, subst, inl, inr, Option, none, some, List, [],
  ◌∷◌, arith, length,
}
use xelis_blockchain.Prelude.Results.{ok, err, Returns, ok_injective}
use xelis_blockchain.Prelude.Equality.{Eq, beq_refl}
use xelis_blockchain.Dag.{Provider}
use xelis_blockchain.Dag.Compare.{In}
use xelis_blockchain.Dag.FullOrder.{LruCache}
use xelis_blockchain.Dag.Weight.{weight, load, load_push, load-one, load_some}
use xelis_blockchain.Dag.TipBase.{
  Base, Cached, BaseWalk, visit, base_loop, lowest_base, finish, find_tip_base, sort_bases, last,
}
use xelis_blockchain.Dag.TipBase.Lowest.{sort_bases-some}
use xelis_blockchain.Dag.TipBase.Visit.{Ancestor, self, along, IsTipBase}
use xelis_blockchain.Dag.TipBase.Sound.{Visited}
use xelis_blockchain.Dag.TipBase.Loop.{IsSound, IsOpen, Inv, state, Inv-next, Inv-first}
use xelis_blockchain.Dag.TipBase.Ends.{start_keeps, picked, find_tip_base-IsTipBase}
use xelis_blockchain.Dag.TipBase.Known.{IsKnown, visit_known}

module _ {K E : Type 0} ⦃e : Eq K⦄ (p : Provider K E) (height pruned_topoheight : ℕ) where
  -- The ancestors of a block: the storage answers for them, none has more than `most` tips, and the
  -- tips of a block have a smaller rank.
  pub record IsBounded (rank : K → ℕ) (most : ℕ) (hash : K) : Type 0 where
    pub known : (x : K) → Ancestor p hash x → IsKnown p height pruned_topoheight x
    pub few :
        (x : K) (tips : List K)
        → Ancestor p hash x
        → p.get_past_blocks_for_block_hash x ≡ ok tips
        → length tips ≤ most
    pub rising :
        (x t : K) (tips : List K)
        → Ancestor p hash x
        → p.get_past_blocks_for_block_hash x ≡ ok tips
        → In tips t
        → rank t < rank x

module _ {C K E : Type 0} ⦃e : Eq K⦄ (p : Provider K E) (lru : LruCache C (K × ℕ) (Base K))
    (height pruned_topoheight : ℕ) (hash : K) (rank : K → ℕ) (most : ℕ)
    (bound : IsBounded p height pruned_topoheight rank most hash) where
  visit_returns :
      (x : K) (w : BaseWalk C K)
      → Ancestor p hash x
      → Returns (visit p lru height pruned_topoheight hash x w)
  visit_returns x w a =
      visit_known p lru height pruned_topoheight hash x w (bound.known x a)
        (λ tips q t m. bound.known t (along tips a q m))

  -- A round costs a part of the fuel.
  visit_load :
      (x : K) (w w' : BaseWalk C K)
      → Ancestor p hash x
      → Visited p lru height pruned_topoheight hash x w w'
      → load most rank w'.stack < load most rank (x ∷ w.stack)
  visit_load x w w' a v =
      let (tips, q) = (bound.known x a).past in
      subst (λ l. load most rank l < load most rank (x ∷ w.stack)) (sym v.split)
        (load_push most rank x v.top w.stack
          (λ y m. let (tips', q', inside, n) = v.past y m in bound.rising x y tips' a q' inside)
          (omega (arith, v.few tips q, bound.few x tips a q)))

  round_more :
      (r : Cached C E (BaseWalk C K)) (fuel : ℕ) (next w' : BaseWalk C K)
      → r ≡ ok next
      → base_loop p lru height pruned_topoheight hash fuel next ≡ some (ok w')
      → elim r [
        | err failure ↦ some (err failure)
        | ok next ↦ base_loop p lru height pruned_topoheight hash fuel next
      ]
        ≡ some (ok w')
  round_more (err failure) fuel next w' q h = cc q
  round_more (ok w) fuel next w' q h =
      ap (base_loop p lru height pruned_topoheight hash fuel) (ok_injective refl q) ∙ h

  loop_returns :
      (fuel : ℕ) (stack : List K) (bases : List (Base K)) (processed : List K) (c : C)
      → Inv p lru height pruned_topoheight hash (state stack bases processed c)
      → load most rank stack ≤ fuel
      → (w' : BaseWalk C K) × (base_loop p lru height pruned_topoheight hash fuel
            (state stack bases processed c)
          ≡ some (ok w'))
  unfolding base_loop
  loop_returns zero [] bases processed c i l = (_, refl)
  loop_returns (suc fuel) [] bases processed c i l = (_, refl)
  loop_returns zero (x ∷ rest) bases processed c i l =
      absurd (omega (arith, l, load_some most rank x rest))
  loop_returns (suc fuel) (x ∷ rest) bases processed c i l =
      let w = state rest bases processed c in
      let a = i.waiting x (ground (arith, beq_refl e x)) in
      let (next, q) = visit_returns x w a in
      let (i', v) =
        Inv-next p lru height pruned_topoheight hash x rest processed bases c next i q in
      let (w', r) =
        loop_returns fuel next.stack next.bases next.processed next.cache i'
          (omega (arith, l, visit_load x w next a v)) in
      (w', round_more _ fuel next w' q r)

  start_returns :
      (fuel : ℕ) (c : C)
      → IsSound p lru height pruned_topoheight c
      → load most rank (hash ∷ []) ≤ fuel
      → (w' : BaseWalk C K) × (base_loop p lru height pruned_topoheight hash fuel
            (state (hash ∷ []) [] [] c)
          ≡ some (ok w'))
  unfolding base_loop
  start_returns zero c s l = absurd (omega (arith, l, load_some most rank hash []))
  start_returns (suc fuel) c s l =
      let w = state [] [] [] c in
      let (next, q) = visit_returns hash w self in
      let (i', v) = Inv-first p lru height pruned_topoheight hash c next s q in
      let (w', r) =
        loop_returns fuel next.stack next.bases next.processed next.cache i'
          (omega (arith, l, visit_load hash w next self v)) in
      (w', round_more _ fuel next w' q r)

  -- Tips all the way down: no block has the least rank.
  descent :
      (n : ℕ) (x : K) (processed : List K)
      → ((y : K) → In processed y → IsOpen p lru height pruned_topoheight hash y [] processed)
      → In processed x
      → rank x < n
      → ⊥
  descent zero x processed o m l = omega (arith, l)
  descent (suc n) x processed o m l =
      let t = o x m in
      descent n t.tip processed o (ground (arith, t.reached))
        (omega (arith, l, bound.rising x t.tip t.tips t.from t.past t.inside))

  some_lowest :
      (bases : List (Base K)) → 1 ≤ length bases → (b : Base K) × (last (sort_bases bases) ≡ some b)
  some_lowest [] l = absurd (omega (arith, l))
  some_lowest (b ∷ bases) l = sort_bases-some b bases

  pick_found :
      (found : Option (Base K)) (w : BaseWalk C K) (b : Base K)
      → found ≡ some b
      → Returns (picked p lru height pruned_topoheight hash w found)
  pick_found none w b q = cc q
  pick_found (some base) w b q = (_, refl)

  -- Since the search ends with a base, there is a lowest one.
  finish_returns :
      (w : BaseWalk C K)
      → Inv p lru height pruned_topoheight hash w
      → w.stack ≡ []
      → Returns (lowest_base p lru height pruned_topoheight hash w)
  unfolding lowest_base
  finish_returns w i q =
      let some_base : 1 ≤ length w.bases = elim i.alive [
        | inl l ↦ l
        | inr o ↦ absurd (
            descent (suc (rank hash)) hash w.processed
              (λ y m.
                subst (λ l. IsOpen p lru height pruned_topoheight hash y l w.processed) q (o y m))
              i.first (omega arith))
      ] in
      let (b, k) = some_lowest w.bases some_base in pick_found (last (sort_bases w.bases)) w b k

  -- From a cache whose entries for this height are tip bases, and with the weight of the hash as fuel,
  -- a tip base of the hash is returned, with a cache whose entries are tip bases: an ancestor that is
  -- ordered at or below the pruned topoheight, or a sync block at this height, with its own height, or
  -- one without tips, with height 0. The storage answers for the ancestors of the hash, none of which
  -- has more than `most` tips, and whose ranks grow from the tips to the block.
  pub find_tip_base_returns :
      (fuel : ℕ) (c : C)
      → IsSound p lru height pruned_topoheight c
      → weight most (rank hash) ≤ fuel
      → (b : Base K) × (c' : C) × (find_tip_base p lru height pruned_topoheight fuel c hash
          ≡ some (ok (b, c')))
        × IsTipBase p height pruned_topoheight hash b
        × IsSound p lru height pruned_topoheight c'
  unfolding find_tip_base finish
  find_tip_base_returns fuel c s enough =
      let (w, r) = start_returns fuel c s (omega (arith, enough, load-one most rank hash)) in
      let (i, d) = start_keeps p lru height pruned_topoheight hash fuel c w s r in
      let (answer, k) = finish_returns w i d in
      let done : find_tip_base p lru height pruned_topoheight fuel c hash ≡ some (ok answer) =
        ap (finish p lru height pruned_topoheight hash) r ∙ ap some k in
      let (t, s') =
        find_tip_base-IsTipBase p lru height pruned_topoheight hash fuel c answer.1 answer.0 s
          done in
      (answer.0, answer.1, done, t, s')
