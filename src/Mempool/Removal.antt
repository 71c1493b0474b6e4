-- ===== src/Mempool/Removal.antt =====
-- What `remove_tx` of xelis_daemon/src/core/mempool.rs leaves in the mempool.
use xelis_blockchain.Prelude.{
  ℕ, ◌≡◌, refl, sym, ap, ◌∙◌, subst, ◌⊎◌, inl, inr, true, false, Option, none, some, List, [], ◌∷◌,
  arith, ◌==◌, if◌then◌else◌, length, All,
}
use xelis_blockchain.Prelude.Equality.{Eq, contains, IsDistinct}
use xelis_blockchain.Prelude.Results.{Result, ok}
use xelis_blockchain.Mempool.{
  find, put, erase, SortedTx, AccountCache, Mempool, MempoolError, remove_tx, remove_cached,
  remove_from, remove_found, shift_remove, bounds_loop, set_bounds,
}
use xelis_blockchain.Mempool.Lookup.{keys, find-erase, find-put_at}
use xelis_blockchain.Mempool.Bounds.{
  IsCut, IsCut-only, shift_remove-IsCut, IsKnown, IsRange, bounds_loop-IsRange, shift_remove-All,
}

list_cases : {A : Type 0} (xs : List A) → (xs ≡ []) ⊎ ((y : A) × (ys : List A) × (xs ≡ y ∷ ys))
list_cases [] = inl refl
list_cases (y ∷ ys) = inr (y, ys, refl)

module _ {K H B : Type 0} ⦃k : Eq K⦄ ⦃h : Eq H⦄ where
  -- What is left of the cache of the sender: nothing where no transaction is left, or else the
  -- cache with the others, whose range goes from their least nonce to their greatest.
  abbrev pub IsLeft :
      List (H × SortedTx K) → H → AccountCache H B → Option (AccountCache H B) → Type 0
  IsLeft txs hash c none = c.txs ≡ hash ∷ []
  IsLeft txs hash c (some c') =
      IsCut hash c.txs c'.txs × (c'.balances ≡ c.balances) × IsRange txs c'.txs c'.min c'.max

  -- The cache under `key` was replaced, or removed where `left` is none, and no other.
  abbrev pub IsUpdated : K → Option (AccountCache H B) → Mempool K H B → Mempool K H B → Type 0
  IsUpdated key left m m' =
      (other : K) → find other m'.caches ≡ (if k.beq key other then left else find other m.caches)

  -- The transaction was taken out, and no other.
  abbrev pub IsWithout : H → Mempool K H B → Mempool K H B → Type 0
  IsWithout hash m m' =
      (other : H) → find other m'.txs ≡ (if h.beq hash other then none else find other m.txs)

module _ {K H : Type 0} ⦃h : Eq H⦄ where
  others-IsKnown :
      (hash : H) (txs : List (H × SortedTx K)) (hs : List H)
      → IsDistinct (keys txs)
      → All (λ x. IsKnown txs x × (h.beq hash x ≡ false)) hs
      → All (IsKnown (erase hash txs)) hs
  others-IsKnown hash txs [] d a = tt
  others-IsKnown hash txs (x ∷ hs) d (((t, f), p), rest) =
      ((t, find-erase hash x txs d ∙ rw p f), others-IsKnown hash txs hs d rest)

module _ (E : Type 0) {K H B : Type 0} ⦃k : Eq K⦄ ⦃h : Eq H⦄ where
  -- The call succeeds, and what it leaves.
  abbrev pub IsRemoval :
      H
      → K
      → AccountCache H B
      → Mempool K H B
      → Result (MempoolError K H E) (Unit {0}) × Mempool K H B
      → Type 0
  IsRemoval hash key c m r =
      (r.0 ≡ ok tt)
      × (r.1.txs ≡ m.txs)
      × ((left : Option (AccountCache H B)) × IsLeft r.1.txs hash c left × IsUpdated key left m r.1)

  remove_last :
      (hash : H) (key : K) (c : AccountCache H B) (m : Mempool K H B)
      → contains hash c.txs ≡ true
      → shift_remove hash c.txs ≡ []
      → remove_cached {E = E} hash key c m ≡ (ok tt, record m { caches = erase key m.caches })
  unfolding remove_cached
  remove_last hash key c m p e = rw (p, e) refl

  remove_inner :
      (hash : H) (key : K) (c : AccountCache H B) (m : Mempool K H B) (min max : ℕ)
      → contains hash c.txs ≡ true
      → (length (shift_remove hash c.txs) == 0) ≡ false
      → bounds_loop m.txs (shift_remove hash c.txs) none ≡ some (some (min, max))
      → remove_cached {E = E} hash key c m ≡ (
        ok tt,
        record m {
          caches =
              put key (record c { txs = shift_remove hash c.txs; min = min; max = max }) m.caches;
        },
      )
  unfolding remove_cached set_bounds
  remove_inner hash key c m min max p z l = rw (p, z, l) refl

  remove_cached-IsRemoval :
      (hash : H) (key : K) (c : AccountCache H B) (m : Mempool K H B)
      → contains hash c.txs ≡ true
      → IsDistinct (keys m.caches)
      → All (IsKnown m.txs) (shift_remove hash c.txs)
      → IsRemoval hash key c m (remove_cached hash key c m)
  remove_cached-IsRemoval hash key c m p d a = elim (list_cases (shift_remove hash c.txs)) [
    | inl e ↦ subst (IsRemoval hash key c m) (sym (remove_last hash key c m p e)) (
      refl,
      refl,
      (
        none,
        IsCut-only hash c.txs (subst (IsCut hash c.txs) e (shift_remove-IsCut hash c.txs p)),
        λ other. find-erase key other m.caches d,
      ),
    )
    | inr (x, hs, e) ↦
        let (min, max, l, r) = bounds_loop-IsRange m.txs x hs (subst (All (IsKnown m.txs)) e a) in
        subst (IsRemoval hash key c m)
          (sym (
            remove_inner hash key c m min max p (rw e (ground arith))
              (ap (λ t. bounds_loop m.txs t none) e ∙ l)))
          (
            refl,
            refl,
            (
              some (record c { txs = shift_remove hash c.txs; min = min; max = max }),
              (
                shift_remove-IsCut hash c.txs p,
                refl,
                subst (λ t. IsRange m.txs t min max) (sym e) r,
              ),
              λ other. find-put_at key other _ m.caches,
            ),
          )
  ]

  remove_tx_from :
      (hash : H) (s : SortedTx K) (c : AccountCache H B) (m : Mempool K H B)
      → find hash m.txs ≡ some s
      → find s.tx.source m.caches ≡ some c
      → remove_tx {E = E} hash m
        ≡ remove_cached hash s.tx.source c (record m { txs = erase hash m.txs })
  unfolding remove_tx remove_found remove_from
  remove_tx_from hash s c m f g = rw (f, g) refl

  -- In a mempool whose maps have no key twice, the removal of a known transaction that is in the cache of its sender, a set of known transactions, succeeds. It takes out that transaction and no other, and changes the cache of no other account. The cache of the sender goes where no transaction of it is left; or else it keeps its balances and the others in their order, and its minimum and maximum are the least and the greatest of their nonces, each the nonce of one of them.
  pub remove_tx_lem :
      (hash : H) (s : SortedTx K) (c : AccountCache H B) (m : Mempool K H B)
      → find hash m.txs ≡ some s
      → find s.tx.source m.caches ≡ some c
      → contains hash c.txs ≡ true
      → IsDistinct c.txs
      → All (IsKnown m.txs) c.txs
      → IsDistinct (keys m.txs)
      → IsDistinct (keys m.caches)
      → let m' = (remove_tx {E = E} hash m).1 in
        ((remove_tx {E = E} hash m).0 ≡ ok tt)
        × IsWithout hash m m'
        × ((left : Option (AccountCache H B)) × IsLeft m'.txs hash c left
            × IsUpdated s.tx.source left m m')
  remove_tx_lem hash s c m f g p d a dt dc =
      let known =
        others-IsKnown hash m.txs (shift_remove hash c.txs) dt
          (shift_remove-All (IsKnown m.txs) hash c.txs d a) in
      let (done, txs, left) =
        remove_cached-IsRemoval hash s.tx.source c (record m { txs = erase hash m.txs }) p dc
          known in
      subst
        (λ r.
          (r.0 ≡ ok tt)
          × IsWithout hash m r.1
          × ((left : Option (AccountCache H B)) × IsLeft r.1.txs hash c left
              × IsUpdated s.tx.source left m r.1))
        (sym (remove_tx_from hash s c m f g))
        (done, λ other. ap (find other) txs ∙ find-erase hash other m.txs dt, left)
