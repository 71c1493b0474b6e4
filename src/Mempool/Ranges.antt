-- ===== src/Mempool/Ranges.antt =====
-- The nonces of each account in the mempool follow one another.
use xelis_blockchain.Prelude.{
  ℕ, zero, suc, ◌+◌, ◌-◌, ◌%◌, ◌^◌, ◌≤◌, ◌<◌, ◌≡◌, refl, ap, ◌∙◌, ◌⊎◌, inl, inr, true, false, ◌&&◌,
  Option, none, some, List, [], ◌∷◌, ◌++◌, arith, ltb, leb, Bool-cases, length, get_elem?, All,
  length-append, ◌==◌,
}
use native.Mathlib.Nat.{mod-eq_of_lt}
use xelis_blockchain.Prelude.Equality.{Eq, contains}
use xelis_blockchain.Prelude.Results.{Result, ok, err}
use xelis_blockchain.Mempool.{
  find, put, Transaction, SortedTx, AccountCache, Mempool, has_tx_with_same_nonce, index_of, add_tx,
  add_verified, track, update, update_nonce_range, insert_hash,
}
use xelis_blockchain.Mempool.Lookup.{find-put, find-put_fresh, find-All, put-All}

module _ {K H : Type 0} ⦃h : Eq H⦄ where
  -- The hashes are those of known transactions with the nonces from `from` on.
  unfoldable pub IsRun : List (H × SortedTx K) → ℕ → List H → Type 0
  IsRun txs from [] = Unit {0}
  IsRun txs from (hash ∷ rest) =
      ((s : SortedTx K) × (find hash txs ≡ some s) × (s.tx.nonce ≡ from))
      × IsRun txs (from + 1) rest

  run_at :
      (txs : List (H × SortedTx K)) (from : ℕ) (hs : List H) (i : ℕ)
      → IsRun txs from hs
      → i < length hs
      → (hash : H) × (s : SortedTx K) × (get_elem? hs i ≡ some hash)
        × (find hash txs ≡ some s)
        × (s.tx.nonce ≡ from + i)
  unfolding IsRun
  run_at txs from [] i r l = ground (arith, l)
  run_at txs from (hash ∷ rest) zero ((s, f, n), r) l = (hash, s, refl, f, omega (arith, n))
  run_at txs from (hash ∷ rest) (suc i) (x, r) l =
      let (hash', s, g, f, n) = run_at txs (from + 1) rest i r (omega (arith, l)) in
      (hash', s, g, f, omega (arith, n))

  run_fresh :
      (txs : List (H × SortedTx K)) (from : ℕ) (hs : List H) (hash : H)
      → IsRun txs from hs
      → find hash txs ≡ none
      → contains hash hs ≡ false
  unfolding IsRun
  run_fresh txs from [] hash r f = refl
  run_fresh txs from (x ∷ rest) hash ((s, g, n), r) f = elim (Bool-cases (h.beq x hash)) [
    | inl p ↦ cc (ap (λ t. find t txs) ((h.beq_iff x hash).0 p), g, f)
    | inr p ↦ rw p (run_fresh txs (from + 1) rest hash r f)
  ]

  run_snoc :
      (txs : List (H × SortedTx K)) (from : ℕ) (hs : List H) (hash : H) (s : SortedTx K)
      → IsRun txs from hs
      → find hash txs ≡ none
      → s.tx.nonce ≡ from + length hs
      → IsRun (put hash s txs) from (hs ++ hash ∷ [])
  unfolding IsRun
  run_snoc txs from [] hash s r f n = ((s, find-put hash s txs, omega (arith, n)), tt)
  run_snoc txs from (x ∷ rest) hash s ((t, g, k), r) f n = (
    (t, find-put_fresh x hash s t txs f g, k),
    run_snoc txs (from + 1) rest hash s r f (omega (arith, n)),
  )

  run_keep :
      (txs : List (H × SortedTx K)) (from : ℕ) (hs : List H) (hash : H) (s : SortedTx K)
      → IsRun txs from hs
      → find hash txs ≡ none
      → IsRun (put hash s txs) from hs
  unfolding IsRun
  run_keep txs from [] hash s r f = tt
  run_keep txs from (x ∷ rest) hash s ((t, g, k), r) f =
      ((t, find-put_fresh x hash s t txs f g, k), run_keep txs (from + 1) rest hash s r f)

module _ {H B : Type 0} where
  index_lem :
      (c : AccountCache H B) (nonce : ℕ)
      → c.min ≤ nonce
      → nonce ≤ c.max
      → c.max + 1 < 2 ^ 64
      → index_of nonce c ≡ nonce - c.min
  unfolding index_of
  index_lem c nonce l r b = ap (λ m. (nonce - c.min) % m) (mod-eq_of_lt inner) ∙ mod-eq_of_lt outer
    where
      inner : c.max + 1 - c.min < 2 ^ 64
      inner = omega (arith, b)

      outer : nonce - c.min < c.max + 1 - c.min
      outer = omega (arith, l, r)

  found_lem :
      (c : AccountCache H B) (nonce : ℕ)
      → c.min ≤ nonce
      → nonce ≤ c.max
      → 0 < length c.txs
      → has_tx_with_same_nonce nonce c ≡ get_elem? c.txs (index_of nonce c)
  unfolding has_tx_with_same_nonce
  found_lem c nonce l r n = ground (arith, l, r, n)

  empty_lem :
      (c : AccountCache H B) → (length c.txs == 0) ≡ true → has_tx_with_same_nonce c.max c ≡ none
  unfolding has_tx_with_same_nonce
  empty_lem c p = ground (arith, p)

  outside_lem :
      (c : AccountCache H B) (nonce : ℕ)
      → (leb c.min nonce && leb nonce c.max) ≡ false
      → has_tx_with_same_nonce nonce c ≡ none
  unfolding has_tx_with_same_nonce
  outside_lem c nonce p = ground (arith, p)

module _ {H B : Type 0} where
  next_outside :
      (c : AccountCache H B) (nonce : ℕ)
      → nonce ≡ c.max + 1
      → (leb c.min nonce && leb nonce c.max) ≡ false
  next_outside c nonce n = ground (arith, n)

get_elem?_outside : {A : Type 0} (xs : List A) (i : ℕ) → length xs ≤ i → get_elem? xs i ≡ none
get_elem?_outside [] i l = refl
get_elem?_outside (x ∷ xs) zero l = ground (arith, l)
get_elem?_outside (x ∷ xs) (suc i) l = get_elem?_outside xs i (omega (arith, l))

module _ {H B : Type 0} where
  -- If the greatest nonce of an account is below the end of u64 and the account has fewer transactions than nonces from its least to its greatest one, as when one between them was removed, then none is found for the greatest nonce.
  pub has_tx_with_same_nonce_gap :
      (c : AccountCache H B)
      → c.min ≤ c.max
      → c.max + 1 < 2 ^ 64
      → length c.txs ≤ c.max - c.min
      → has_tx_with_same_nonce c.max c ≡ none
  has_tx_with_same_nonce_gap c l b g = elim (Bool-cases (length c.txs == 0)) [
    | inl p ↦ empty_lem c p
    | inr p ↦
        found_lem c c.max l (omega arith) (ground (arith, p))
        ∙ ap (get_elem? c.txs) (index_lem c c.max l (omega arith) b)
        ∙ get_elem?_outside c.txs (c.max - c.min) g
  ]

module _ {K H B : Type 0} ⦃h : Eq H⦄ where
  -- The transactions of an account, in order, have the nonces from `min` to `max`.
  pub record InOrder (txs : List (H × SortedTx K)) (c : AccountCache H B) : Type 0 where
    pub run : IsRun txs c.min c.txs
    pub range : c.max + 1 ≡ c.min + length c.txs
    pub some_nonce : c.min ≤ c.max
    pub bounded : c.max + 1 < 2 ^ 64

  -- In an account whose nonces follow one another the transaction that is found for a nonce of the range has that nonce, and for any other nonce none is found.
  pub has_tx_with_same_nonce_exact :
      (txs : List (H × SortedTx K)) (c : AccountCache H B) (nonce : ℕ)
      → InOrder txs c
      → (((leb c.min nonce && leb nonce c.max) ≡ false) × (has_tx_with_same_nonce nonce c ≡ none))
        ⊎ ((hash : H) × (s : SortedTx K) × (has_tx_with_same_nonce nonce c ≡ some hash)
            × (find hash txs ≡ some s)
            × (s.tx.nonce ≡ nonce))
  has_tx_with_same_nonce_exact txs c nonce o =
      elim (Bool-cases (leb c.min nonce && leb nonce c.max)) [
        | inl p ↦
            let l : c.min ≤ nonce = ground (arith, p) in
            let r : nonce ≤ c.max = ground (arith, p) in
            let (hash, s, g, f, n) =
              run_at txs c.min c.txs (nonce - c.min) o.run (omega (arith, l, r, o.range)) in
            inr (
              hash,
              s,
              found_lem c nonce l r (omega (arith, l, r, o.range))
                  ∙ ap (get_elem? c.txs) (index_lem c nonce l r o.bounded)
                  ∙ g,
              f,
              omega (arith, n, l),
            )
        | inr p ↦ inl (p, outside_lem c nonce p)
      ]

module _ {H B : Type 0} where
  -- The nonce that may follow those of the account.
  abbrev pub IsNext : Option (AccountCache H B) → ℕ → Type 0
  IsNext none nonce = Unit {0}
  IsNext (some c) nonce = nonce ≡ c.max + 1

module _ {K H B : Type 0} ⦃h : Eq H⦄ where
  unfoldable pub IsValid : Mempool K H B → Type 0
  IsValid m = All (λ e. InOrder m.txs e.1) m.caches

  keep :
      (txs : List (H × SortedTx K)) (hash : H) (s : SortedTx K)
      → find hash txs ≡ none
      → (cs : List (K × AccountCache H B)) → All (λ e. InOrder txs e.1) cs
      → All (λ e. InOrder (put hash s txs) e.1) cs
  keep txs hash s f [] o = tt
  keep txs hash s f ((key, c) ∷ rest) (o, os) = (
    record {
      run = run_keep txs c.min c.txs hash s o.run f;
      range = o.range;
      some_nonce = o.some_nonce;
      bounded = o.bounded;
    },
    keep txs hash s f rest os,
  )

  InOrderOf : List (H × SortedTx K) → Option (AccountCache H B) → Type 0
  InOrderOf txs none = Unit {0}
  InOrderOf txs (some c) = InOrder txs c

  update-InOrder :
      (c : AccountCache H B) (hash : H) (txs : List (H × SortedTx K)) (s : SortedTx K)
      → find hash txs ≡ none
      → s.tx.nonce ≡ c.max + 1
      → s.tx.nonce + 1 < 2 ^ 64
      → InOrder txs c
      → InOrder (put hash s txs) (update s.tx.nonce hash c)
  unfolding update update_nonce_range insert_hash
  update-InOrder c hash txs s f n b o = rw (run_fresh txs c.min c.txs hash o.run f) (
      rw (low, high)
        (record {
          run = run_snoc txs c.min c.txs hash s o.run f (omega (arith, n, o.range));
          range = omega (arith, n, o.range, length-append c.txs (hash ∷ []));
          some_nonce = omega (arith, n, o.some_nonce);
          bounded = b;
        }))
    where
      low : ltb s.tx.nonce c.min ≡ false
      low = ground (arith, n, o.some_nonce)

      high : ltb c.max s.tx.nonce ≡ true
      high = ground (arith, n)

module _ {K H B : Type 0} ⦃k : Eq K⦄ ⦃h : Eq H⦄ where
  track-InOrder :
      (found : Option (AccountCache H B)) (hash : H) (balances : B) (txs : List (H × SortedTx K))
      (s : SortedTx K)
      → find hash txs ≡ none
      → IsNext found s.tx.nonce
      → s.tx.nonce + 1 < 2 ^ 64
      → InOrderOf txs found
      → ((track found s.tx.nonce hash balances txs).1 ≡ txs)
        × InOrder (put hash s txs) (track found s.tx.nonce hash balances txs).0
  unfolding track InOrderOf IsRun
  track-InOrder none hash balances txs s f n b o = (
    refl,
    record {
      run = run_snoc txs s.tx.nonce [] hash s tt f (omega arith);
      range = refl;
      some_nonce = omega arith;
      bounded = b;
    },
  )
  track-InOrder (some c) hash balances txs s f n b o =
      let i = update-InOrder c hash txs s f n b o in
      rw (next_outside c s.tx.nonce n) (
        refl,
        record { run = i.run; range = i.range; some_nonce = i.some_nonce; bounded = i.bounded },
      )

  found-InOrder :
      (m : Mempool K H B) (key : K) (found : Option (AccountCache H B))
      → find key m.caches ≡ found
      → IsValid m
      → InOrderOf m.txs found
  unfolding InOrderOf IsValid
  found-InOrder m key none p v = tt
  found-InOrder m key (some c) p v = find-All (InOrder m.txs) key m.caches c v p

  add_verified-IsValid :
      (balances : B) (hash : H) (tx : Transaction K) (size now : ℕ) (m : Mempool K H B)
      → find hash m.txs ≡ none
      → IsNext (find tx.source m.caches) tx.nonce
      → tx.nonce + 1 < 2 ^ 64
      → IsValid m
      → IsValid (add_verified balances hash tx size now m)
  unfolding add_verified IsValid
  add_verified-IsValid balances hash tx size now m f n b v =
      let s : SortedTx K = record { tx = tx; first_seen = now; size = size } in
      let (same, o) =
        track-InOrder (find tx.source m.caches) hash balances m.txs s f n b
          (found-InOrder m tx.source _ refl v) in
      rw same (
        put-All (InOrder (put hash s m.txs)) tx.source _ m.caches (keep m.txs hash s f m.caches v)
          o)

module _ {K H B E : Type 0} ⦃k : Eq K⦄ ⦃h : Eq H⦄ where
  -- If the nonces of every account follow one another, and a transaction whose hash is not in the mempool has the next nonce of its account, or is its first one, with a nonce below the end of u64, then the nonces of every account follow one another after `add_tx`, whatever the verification answers.
  pub add_tx-IsValid :
      (verified : Result E (Option B)) (hash : H) (tx : Transaction K) (size now : ℕ)
      (m : Mempool K H B)
      → find hash m.txs ≡ none
      → IsNext (find tx.source m.caches) tx.nonce
      → tx.nonce + 1 < 2 ^ 64
      → IsValid m
      → IsValid (add_tx verified hash tx size now m).1
  unfolding add_tx
  add_tx-IsValid (err s) hash tx size now m f n b v = v
  add_tx-IsValid (ok none) hash tx size now m f n b v = v
  add_tx-IsValid (ok (some balances)) hash tx size now m f n b v =
      add_verified-IsValid balances hash tx size now m f n b v
