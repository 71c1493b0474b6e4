-- ===== src/Dag/TipBase/Known.antt =====
-- A visit has no error where the storage answers for the block and its tips.
use xelis_blockchain.Prelude.{
  ℕ, ◌≡◌, refl, sym, subst, Bool, true, false, Option, none, some, List, [], ◌∷◌, arith,
}
use xelis_blockchain.Prelude.Results.{ok, ◌>>=◌, Returns}
use xelis_blockchain.Prelude.Equality.{Eq, beq_refl}
use xelis_blockchain.Dag.{Provider, Ask, is_sync_block_at_height}
use xelis_blockchain.Dag.Compare.{In}
use xelis_blockchain.Dag.FullOrder.{LruCache}
use xelis_blockchain.Dag.TipBase.{
  Base, Cached, with_cache, BaseWalk, insert_base, pruned_height, visit_tips, visit_past,
  visit_cached, visit_unpruned, visit,
}

with_cache_returns :
    {C E A B : Type 0} (c : C) {r : Ask E A} {value : A} (next : A → Cached C E B)
    → r ≡ ok value
    → Returns (next value)
    → Returns (with_cache c r >>= next)
with_cache_returns c next q h = subst (λ r. Returns (with_cache c r >>= next)) (sym q) h

module _ {K E : Type 0} ⦃e : Eq K⦄ (p : Provider K E) (height pruned_topoheight : ℕ) where
  -- The storage answers for a block.
  pub record IsKnown (x : K) : Type 0 where
    pub past : Returns (p.get_past_blocks_for_block_hash x)
    pub pruned : Returns (pruned_height p pruned_topoheight x)
    pub sync : Returns (is_sync_block_at_height p x height)
    pub high : Returns (p.get_height_for_block_hash x)

module _ {C K E : Type 0} ⦃e : Eq K⦄ (p : Provider K E) (lru : LruCache C (K × ℕ) (Base K))
    (height pruned_topoheight : ℕ) (hash : K) where
  visit_tips_known :
      (tips : List K) (w : BaseWalk C K)
      → ((t : K) → In tips t → IsKnown p height pruned_topoheight t)
      → Returns (visit_tips p lru height pruned_topoheight hash tips w)
  unfolding visit_tips
  visit_tips_known [] w h = (_, refl)
  visit_tips_known (x ∷ tips) w h =
      let k = h x (ground (arith, beq_refl e x)) in
      let (found, q) = k.pruned in
      with_cache_returns w.cache _ q
        (after found k (visit_tips_known tips _ (λ t m. h t (ground (arith, m)))))
    where
      after_sync :
          (is_sync : Bool)
          → IsKnown p height pruned_topoheight x
          → {next : Cached C E (BaseWalk C K)} → Returns next
          → Returns (elim is_sync [
            | true ↦ with_cache w.cache (p.get_height_for_block_hash x) >>= λ block_height.
                ok (record w {
                  cache = lru.put w.cache (hash, height) (x, block_height);
                  bases = insert_base (x, block_height) w.bases;
                })
            | false ↦ next
          ])
      after_sync true k r = let (n, f) = k.high in with_cache_returns w.cache _ f (_, refl)
      after_sync false k r = r

      after :
          (found : Option ℕ)
          → IsKnown p height pruned_topoheight x
          → {next : Cached C E (BaseWalk C K)} → Returns next
          → Returns (elim found [
            | some block_height ↦ ok (record w { bases = insert_base (x, block_height) w.bases })
            | none ↦ with_cache w.cache (is_sync_block_at_height p x height) >>= λ is_sync.
                elim is_sync [
                  | true ↦ with_cache w.cache (p.get_height_for_block_hash x) >>= λ block_height.
                      ok (record w {
                        cache = lru.put w.cache (hash, height) (x, block_height);
                        bases = insert_base (x, block_height) w.bases;
                      })
                  | false ↦ next
                ]
          ])
      after (some n) k r = (_, refl)
      after none k r = let (s, q) = k.sync in with_cache_returns w.cache _ q (after_sync s k r)

  visit_past_known :
      (x : K) (tips : List K) (w : BaseWalk C K)
      → ((t : K) → In tips t → IsKnown p height pruned_topoheight t)
      → Returns (visit_past p lru height pruned_topoheight hash x tips w)
  unfolding visit_past
  visit_past_known x [] w h = (_, refl)
  visit_past_known x (t ∷ tips) w h = visit_tips_known (t ∷ tips) w h

  visit_cached_known :
      (x : K) (found : Option (Base K)) (w : BaseWalk C K)
      → IsKnown p height pruned_topoheight x
      → ((tips : List K)
          → p.get_past_blocks_for_block_hash x ≡ ok tips
          → (t : K) → In tips t
          → IsKnown p height pruned_topoheight t)
      → Returns (visit_cached p lru height pruned_topoheight hash x found w)
  unfolding visit_cached
  visit_cached_known x (some b) w k h = (_, refl)
  visit_cached_known x none w k h =
      let (tips, q) = k.past in
      with_cache_returns w.cache _ q (visit_past_known x tips w (h tips q))

  visit_unpruned_known :
      (x : K) (found : Option ℕ) (w : BaseWalk C K)
      → IsKnown p height pruned_topoheight x
      → ((tips : List K)
          → p.get_past_blocks_for_block_hash x ≡ ok tips
          → (t : K) → In tips t
          → IsKnown p height pruned_topoheight t)
      → Returns (visit_unpruned p lru height pruned_topoheight hash x found w)
  unfolding visit_unpruned
  visit_unpruned_known x (some n) w k h = (_, refl)
  visit_unpruned_known x none w k h = visit_cached_known x (lru.get w.cache (x, height)).1 _ k h

  pub visit_known :
      (x : K) (w : BaseWalk C K)
      → IsKnown p height pruned_topoheight x
      → ((tips : List K)
          → p.get_past_blocks_for_block_hash x ≡ ok tips
          → (t : K) → In tips t
          → IsKnown p height pruned_topoheight t)
      → Returns (visit p lru height pruned_topoheight hash x w)
  unfolding visit
  visit_known x w k h =
      let (found, q) = k.pruned in
      with_cache_returns w.cache _ q (visit_unpruned_known x found _ k h)
