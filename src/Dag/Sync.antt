-- ===== src/Dag/Sync.antt =====
-- What a sync block is.
use xelis_blockchain.Prelude.{
  ℕ, ◌+◌, ◌-◌, ◌%◌, ◌≤◌, ◌<◌, ◌≡◌, refl, sym, ap, ◌∙◌, ◌⊎◌, inl, inr, Bool, true, false, not, ◌||◌,
  Option, none, some, List, [], arith, ltb, ◌==◌, if◌then◌else◌, ==_iff,
}
use xelis_blockchain.Prelude.Results.{ok, ◌>>=◌, >>=-eq-ok}
use xelis_blockchain.Prelude.Equality.{Eq}
use xelis_blockchain.Dag.{
  Provider, Ask, stable_limit, u64_mod, several_ordered, collect_blocks, stable_point, is_pruned_at,
  compare_past, is_sync_block_at_height,
}
use xelis_blockchain.Dag.Compare.{
  In, count_ordered, several-count, IsLighter, heaviest_lem, collected,
}

module _ {K E : Type 0} (p : Provider K E) where
  -- The heights that a block of height `b` is compared with: at most eight below it and, where the
  -- block is itself below height eight, only those from `8 - b` on.
  abbrev pub IsCompared : ℕ → ℕ → Type 0
  IsCompared b h =
      (0 < h)
      × (h < b)
      × (((stable_limit ≤ b) × (b ≤ h + stable_limit))
          ⊎ ((b < stable_limit) × (stable_limit ≤ h + b)))

  above_stable_point : (b h : ℕ) → IsCompared b h → stable_point b ≤ h
  unfolding stable_point
  above_stable_point b h (p, l, c) = ground (arith, c)

  -- A block that stands alone on the main chain at its height `b`, and above all the ordered blocks
  -- of the heights that it is compared with.
  abbrev IsMain : ⦃e : Eq K⦄ → K → ℕ → Type 0
  IsMain hash b =
      (tips : List K) × (p.get_blocks_at_height b ≡ ok tips)
      × (count_ordered p tips ≤ 1)
      × ((d : ℕ) × (p.get_cumulative_difficulty_for_block_hash hash ≡ ok d)
          × ((h : ℕ)
              → IsCompared b h
              → (bs : List K) × (p.get_blocks_at_height h ≡ ok bs)
                × ((x : K) → In bs x → IsLighter p d x)))

  -- The block is where the chain has been pruned.
  abbrev PrunedHere : K → Type 0
  PrunedHere hash =
      (t : ℕ) × (p.get_pruned_topoheight ≡ ok (some t)) × (p.get_topo_height_for_hash hash ≡ ok t)

  several_step :
      (several : Bool) (rest : Ask E Bool)
      → (if several then ok false else rest) ≡ ok true
      → (several ≡ false) × (rest ≡ ok true)
  several_step true rest h = cc h
  several_step false rest h = (refl, h)

  compare_past-IsMain :
      ⦃e : Eq K⦄ (hash : K) (b : ℕ) → 0 < b → compare_past p hash b ≡ ok true → IsMain hash b
  unfolding compare_past
  compare_past-IsMain hash b pos h =
      let (tips, q, r) = >>=-eq-ok (p.get_blocks_at_height b) _ h in
      let (one, r1) = several_step (several_ordered p tips 0) _ r in
      let (all, c, r2) = >>=-eq-ok (collect_blocks p (stable_point b) (b - 1) []) _ r1 in
      let (d, w, heavy) = >>=-eq-ok (p.get_cumulative_difficulty_for_block_hash hash) _ r2 in
      (
        tips,
        q,
        omega (arith, several-count p tips 0 (omega arith) one),
        (
          d,
          w,
          λ n (n0, u, z).
              let (bs, k, inside) =
                (collected p (stable_point b) (b - 1) [] all c).1 n n0
                  (above_stable_point b n (n0, u, z)) (omega (arith, u)) in
              (bs, k, λ x m. heaviest_lem p d all heavy x (inside x m)),
        ),
      )

  is_pruned_at-PrunedHere :
      (hash : K) (pruned : Option ℕ)
      → p.get_pruned_topoheight ≡ ok pruned
      → is_pruned_at p pruned hash ≡ ok true
      → PrunedHere hash
  unfolding is_pruned_at
  is_pruned_at-PrunedHere hash none q h = cc h
  is_pruned_at-PrunedHere hash (some t) q h =
      let (u, k, r) = >>=-eq-ok (p.get_topo_height_for_hash hash) _ h in
      (t, q, k ∙ ap ok (sym ((==_iff t u).0 (cc r))))

  guard_step :
      (zero_height shut : Bool) (rest : Ask E Bool)
      → (if zero_height then ok true else if shut then ok false else rest) ≡ ok true
      → (zero_height ≡ true) ⊎ ((zero_height ≡ false) × (shut ≡ false) × (rest ≡ ok true))
  guard_step true shut rest h = inl refl
  guard_step false true rest h = cc h
  guard_step false false rest h = inr (refl, refl, h)

  pruned_step :
      (at_pruned : Bool) (rest : Ask E Bool)
      → (if at_pruned then ok true else rest) ≡ ok true
      → (at_pruned ≡ true) ⊎ (rest ≡ ok true)
  pruned_step true rest h = inl refl
  pruned_step false rest h = inr h

  -- What is left to do for a block that is ordered and deep enough.
  abbrev deep_enough : ⦃e : Eq K⦄ → K → ℕ → Ask E Bool
  deep_enough hash b = p.get_pruned_topoheight >>= λ pruned.
      is_pruned_at p pruned hash >>= λ at_pruned.
      if at_pruned then ok true else compare_past p hash b

  deep_enough-IsMain :
      ⦃e : Eq K⦄ (hash : K) (b : ℕ)
      → 0 < b
      → deep_enough hash b ≡ ok true
      → PrunedHere hash ⊎ IsMain hash b
  deep_enough-IsMain hash b pos h =
      let (pruned, q, r) = >>=-eq-ok p.get_pruned_topoheight _ h in
      let (at_pruned, k, r2) = >>=-eq-ok (is_pruned_at p pruned hash) _ r in
      elim (pruned_step at_pruned (compare_past p hash b) r2) [
        | inl found ↦ inl (is_pruned_at-PrunedHere hash pruned q (k ∙ ap ok found))
        | inr r3 ↦ inr (compare_past-IsMain hash b pos r3)
      ]

  abbrev pub SyncAnswer : ⦃e : Eq K⦄ → K → ℕ → ℕ → Type 0
  SyncAnswer hash height b =
      (b ≡ 0)
      ⊎ ((p.is_block_topological_ordered hash ≡ true)
          × ((b + stable_limit) % u64_mod ≤ height)
          × (PrunedHere hash ⊎ IsMain hash b))

  guard_lem :
      (height b : ℕ) (ordered : Bool)
      → (ltb height ((b + stable_limit) % u64_mod) || not ordered) ≡ false
      → (ordered ≡ true) × ((b + stable_limit) % u64_mod ≤ height)
  guard_lem height b ordered h = ground (arith, h)

  -- A block that passes for a sync block is at height 0, or it is ordered, at least eight heights
  -- below the given one (the sum is that of `u64`), and is where the chain has been pruned or stands
  -- on the main chain: no second block of its height is ordered, and every ordered block of the
  -- heights that it is compared with has a smaller cumulative difficulty. A block of height `b` from
  -- 8 on is compared with the eight heights below it, 0 left out; one of height 5, 6 or 7 only with
  -- the heights from `8 - b` to `b - 1`, and one of the heights 1 to 4 with none.
  pub is_sync_block-SyncAnswer :
      ⦃e : Eq K⦄ (hash : K) (height : ℕ)
      → is_sync_block_at_height p hash height ≡ ok true
      → (b : ℕ) × (p.get_height_for_block_hash hash ≡ ok b) × SyncAnswer hash height b
  unfolding is_sync_block_at_height
  is_sync_block-SyncAnswer hash height h =
      let (b, q, r) = >>=-eq-ok (p.get_height_for_block_hash hash) _ h in
      (
        b,
        q,
        elim (guard_step (b == 0)
            (ltb height ((b + stable_limit) % u64_mod) || not (p.is_block_topological_ordered hash))
            (deep_enough hash b) r) [
              | inl z ↦ inl ((==_iff b 0).0 z)
              | inr (nz, passed, r1) ↦
                  let (o, l) = guard_lem height b (p.is_block_topological_ordered hash) passed in
                  inr (o, l, deep_enough-IsMain hash b (ground (arith, nz)) r1)
            ],
      )
