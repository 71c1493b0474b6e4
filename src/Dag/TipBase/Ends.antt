-- ===== src/Dag/TipBase/Ends.antt =====
-- What `find_tip_base` returns.
use xelis_blockchain.BlockDag.{expected_tips}
use xelis_blockchain.Prelude.{
  ℕ, zero, suc, ◌≡◌, refl, sym, ap, subst, inl, inr, Option, none, some, List, [], ◌∷◌,
}
use xelis_blockchain.Prelude.Results.{Result, ok, err, some_injective}
use xelis_blockchain.Prelude.Equality.{Eq}
use xelis_blockchain.Dag.{Provider, expected_tips}
use xelis_blockchain.Dag.FullOrder.{LruCache}
use xelis_blockchain.Dag.TipBase.{
  Base, Cached, BaseWalk, visit, base_loop, lowest_base, finish, find_tip_base, sort_bases, last,
}
use xelis_blockchain.Dag.TipBase.Lowest.{last-sort_bases}
use xelis_blockchain.Dag.TipBase.Visit.{IsTipBase}
use xelis_blockchain.Dag.TipBase.Loop.{IsSound, Inv, state, Inv-next, Inv-first}

returned :
    {X A : Type 0} {a b : A} {r : Option (Result X A)} → r ≡ some (ok a) → r ≡ some (ok b) → a ≡ b
returned h k = cc (h, k)

module _ {C K E : Type 0} ⦃e : Eq K⦄ (p : Provider K E) (lru : LruCache C (K × ℕ) (Base K))
    (height pruned_topoheight : ℕ) (hash : K) where
  round_ends :
      (r : Cached C E (BaseWalk C K)) (fuel : ℕ) (w' : BaseWalk C K)
      → elim r [
        | err failure ↦ some (err failure)
        | ok next ↦ base_loop p lru height pruned_topoheight hash fuel next
      ]
        ≡ some (ok w')
      → (next : BaseWalk C K) × (r ≡ ok next)
        × (base_loop p lru height pruned_topoheight hash fuel next ≡ some (ok w'))
  round_ends (err failure) fuel w' h = cc h
  round_ends (ok next) fuel w' h = (next, refl, h)

  pub loop_keeps :
      (fuel : ℕ) (stack : List K) (bases : List (Base K)) (processed : List K) (c : C)
      (w' : BaseWalk C K)
      → Inv p lru height pruned_topoheight hash (state stack bases processed c)
      → base_loop p lru height pruned_topoheight hash fuel (state stack bases processed c)
        ≡ some (ok w')
      → Inv p lru height pruned_topoheight hash w' × (w'.stack ≡ [])
  unfolding base_loop
  loop_keeps zero [] bases processed c w' i h = (
    subst (Inv p lru height pruned_topoheight hash) (returned refl h) i,
    ap (λ w. w.stack) (sym (returned refl h)),
  )
  loop_keeps (suc fuel) [] bases processed c w' i h = (
    subst (Inv p lru height pruned_topoheight hash) (returned refl h) i,
    ap (λ w. w.stack) (sym (returned refl h)),
  )
  loop_keeps zero (x ∷ rest) bases processed c w' i h = cc h
  loop_keeps (suc fuel) (x ∷ rest) bases processed c w' i h =
      let (next, q, r) =
        round_ends (visit p lru height pruned_topoheight hash x (state rest bases processed c)) fuel
          w' h in
      let (i', v) =
        Inv-next p lru height pruned_topoheight hash x rest processed bases c next i q in
      loop_keeps fuel next.stack next.bases next.processed next.cache w' i' r

  pub start_keeps :
      (fuel : ℕ) (c : C) (w' : BaseWalk C K)
      → IsSound p lru height pruned_topoheight c
      → base_loop p lru height pruned_topoheight hash fuel (state (hash ∷ []) [] [] c)
        ≡ some (ok w')
      → Inv p lru height pruned_topoheight hash w' × (w'.stack ≡ [])
  unfolding base_loop
  start_keeps zero c w' s h = cc h
  start_keeps (suc fuel) c w' s h =
      let (next, q, r) =
        round_ends (visit p lru height pruned_topoheight hash hash (state [] [] [] c)) fuel w' h in
      let (i, v) = Inv-first p lru height pruned_topoheight hash c next s q in
      loop_keeps fuel next.stack next.bases next.processed next.cache w' i r

  abbrev pub picked : BaseWalk C K → Option (Base K) → Cached C E (Base K × C)
  picked w none = err (w.cache, expected_tips)
  picked w (some base) = ok (base, lru.put w.cache (hash, height) base)

  lowest_lem :
      (found : Option (Base K)) (w : BaseWalk C K) (b : Base K) (c' : C)
      → picked w found ≡ ok (b, c')
      → (found ≡ some b) × (lru.put w.cache (hash, height) b ≡ c')
  lowest_lem none w b c' h = cc h
  lowest_lem (some base) w b c' h = (cc h, cc h)

  finish_ends :
      (r : Option (Cached C E (BaseWalk C K))) (b : Base K) (c' : C)
      → finish p lru height pruned_topoheight hash r ≡ some (ok (b, c'))
      → (w : BaseWalk C K) × (r ≡ some (ok w))
        × (last (sort_bases w.bases) ≡ some b)
        × (lru.put w.cache (hash, height) b ≡ c')
  unfolding finish lowest_base
  finish_ends none b c' h = cc h
  finish_ends (some (err failure)) b c' h = cc h
  finish_ends (some (ok w)) b c' h =
      let (q, k) = lowest_lem (last (sort_bases w.bases)) w b c' (some_injective h) in
      (w, refl, q, k)

  IsSound-finish :
      (w : BaseWalk C K) (b : Base K)
      → Inv p lru height pruned_topoheight hash w
      → IsTipBase p height pruned_topoheight hash b
      → IsSound p lru height pruned_topoheight (lru.put w.cache (hash, height) b)
  IsSound-finish w b i t x b' h = elim (lru.put_adds w.cache (hash, height) (x, height) b b' h) [
    | inl (k, v) ↦
        subst (λ z. IsTipBase p height pruned_topoheight z b') (ap (λ t. t.0) k)
          (subst (IsTipBase p height pruned_topoheight hash) v t)
    | inr (d, g) ↦ elim (i.sound x b' g) [
      | inl q ↦ absurd (d (ap (λ z. (z, height)) (sym q)))
      | inr s ↦ s
    ]
  ]

  -- What is found is a tip base of the hash.
  pub find_tip_base-IsTipBase :
      (fuel : ℕ) (c c' : C) (b : Base K)
      → IsSound p lru height pruned_topoheight c
      → find_tip_base p lru height pruned_topoheight fuel c hash ≡ some (ok (b, c'))
      → IsTipBase p height pruned_topoheight hash b × IsSound p lru height pruned_topoheight c'
  unfolding find_tip_base
  find_tip_base-IsTipBase fuel c c' b s h =
      let (w, r, q, k) = finish_ends _ b c' h in
      let (i, d) = start_keeps fuel c w s r in
      let (t, low) =
        last-sort_bases (IsTipBase p height pruned_topoheight hash) w.bases b q i.bases in
      (t, subst (IsSound p lru height pruned_topoheight) k (IsSound-finish w b i t))
