-- ===== src/Mempool.antt =====
-- xelis_daemon/src/core/mempool.rs: the transactions that wait for a block, and the range of the
-- nonces of each account. Maps are association lists whose order is never read, an `IndexSet` is
-- its elements in order. What `Transaction::verify` and the state that it fills answer is an
-- argument: an error, no balances for the sender, or its balances. The clock is an argument.
pub mod Lookup
pub mod Ranges
pub mod Bounds
pub mod Removal
use xelis_blockchain.Prelude.{
  ℕ, zero, suc, ◌+◌, ◌-◌, ◌*◌, ◌/◌, ◌%◌, ◌^◌, ◌≤◌, ◌<◌, ◌≡◌, refl, sym, ap, ◌∙◌, subst, ◌≢◌, ◌↔◌,
  ◌⊎◌, inl, inr, Bool, true, false, not, ◌&&◌, ◌||◌, Option, none, some, List, [], ◌∷◌, ◌++◌, map,
  append_assoc, append-nil, arith, ltb, leb, ◌==◌, if◌then◌else◌, Bool-cases, Option-cases, length,
  get_elem?, take, drop, All, length-append,
}
use xelis_blockchain.Prelude.Equality.{Eq, contains}
use xelis_blockchain.Prelude.Results.{Result, ok, err}

module _ {K V : Type 0} ⦃e : Eq K⦄ where
  -- `HashMap::get`, `HashMap::insert` and `HashMap::remove`
  unfoldable pub find : K → List (K × V) → Option V
  find key [] = none
  find key ((k, v) ∷ rest) = let found = find key rest in if e.beq k key then some v else found

  unfoldable pub put : K → V → List (K × V) → List (K × V)
  put key v [] = (key, v) ∷ []
  put key v ((k, w) ∷ rest) =
      let others = put key v rest in if e.beq k key then (k, v) ∷ rest else (k, w) ∷ others

  unfoldable pub erase : K → List (K × V) → List (K × V)
  erase key [] = []
  erase key ((k, w) ∷ rest) =
      let others = erase key rest in if e.beq k key then rest else (k, w) ∷ others

-- What the mempool reads of a transaction.
pub record Transaction (K : Type 0) : Type 0 where
  pub source : K
  pub nonce : ℕ

pub record SortedTx (K : Type 0) : Type 0 where
  pub tx : Transaction K
  pub first_seen : ℕ
  pub size : ℕ

pub record AccountCache (H B : Type 0) : Type 0 where
  pub min : ℕ
  pub max : ℕ
  pub txs : List H
  pub balances : B

pub record Mempool (K H B : Type 0) : Type 0 where
  pub txs : List (H × SortedTx K)
  pub caches : List (K × AccountCache H B)

pub data MempoolError (K H E : Type 0) : Type 0 where
  account_not_found : K → MempoolError K H E
  tx_not_found : H → MempoolError K H E
  verification : E → MempoolError K H E

module _ {H : Type 0} ⦃e : Eq H⦄ where
  -- `IndexSet::insert` and `IndexSet::shift_remove`
  insert_hash : H → List H → List H
  insert_hash hash hs = if contains hash hs then hs else hs ++ hash ∷ []

  pub shift_remove : H → List H → List H
  shift_remove hash [] = []
  shift_remove hash (h ∷ rest) =
      let others = shift_remove hash rest in if e.beq h hash then rest else h ∷ others

-- The element at `i` is replaced.
set_at : {H : Type 0} → ℕ → H → List H → List H
set_at i x [] = []
set_at zero x (h ∷ rest) = x ∷ rest
set_at (suc i) x (h ∷ rest) = h ∷ set_at i x rest

-- `IndexSet::swap_remove_index`: the last element takes the place of the one that is removed.
swap_remove : {H : Type 0} → ℕ → List H → List H
unfolding set_at
swap_remove i hs = elim (get_elem? hs (length hs - 1)) [
  | none ↦ hs
  | some last ↦ take (length hs - 1) (set_at i last hs)
]

module _ {H B : Type 0} where
  unfoldable pub get_next_nonce : AccountCache H B → ℕ
  get_next_nonce c = (c.max + 1) % 2 ^ 64

  unfoldable pub update_nonce_range : ℕ → AccountCache H B → AccountCache H B
  update_nonce_range nonce c = record c {
    min = if ltb nonce c.min then nonce else c.min;
    max = if ltb c.max nonce then nonce else c.max;
  }

  index_of : ℕ → AccountCache H B → ℕ
  index_of nonce c = (nonce - c.min) % ((c.max + 1 - c.min) % 2 ^ 64)

  unfoldable pub has_tx_with_same_nonce : ℕ → AccountCache H B → Option H
  unfolding index_of
  has_tx_with_same_nonce nonce c =
      if ltb nonce c.min || ltb c.max nonce || length c.txs == 0
      then none
      else get_elem? c.txs (index_of nonce c)

module _ {H B : Type 0} ⦃h : Eq H⦄ where
  unfoldable pub update : ℕ → H → AccountCache H B → AccountCache H B
  unfolding update_nonce_range insert_hash
  update nonce hash c =
      let c' = update_nonce_range nonce c in record c' { txs = insert_hash hash c'.txs }

module _ {K H : Type 0} ⦃h : Eq H⦄ where
  erase_found : Option H → List (H × SortedTx K) → List (H × SortedTx K)
  erase_found none txs = txs
  erase_found (some hash) txs = erase hash txs

bounds_step : ℕ → Option (ℕ × ℕ) → Option (ℕ × ℕ)
bounds_step nonce none = some (nonce, nonce)
bounds_step nonce (some (min, max)) =
    some (if ltb nonce min then nonce else min, if ltb max nonce then nonce else max)

module _ {K H : Type 0} ⦃h : Eq H⦄ where
  -- The least and the greatest nonce, or none where a transaction is not known.
  pub bounds_loop : List (H × SortedTx K) → List H → Option (ℕ × ℕ) → Option (Option (ℕ × ℕ))
  unfolding bounds_step
  bounds_loop txs [] bounds = some bounds
  bounds_loop txs (hash ∷ rest) bounds = elim (find hash txs) [
    | none ↦ none
    | some s ↦ bounds_loop txs rest (bounds_step s.tx.nonce bounds)
  ]

module _ {H B : Type 0} where
  set_bounds : Option (ℕ × ℕ) → AccountCache H B → AccountCache H B
  set_bounds none c = c
  set_bounds (some (min, max)) c = record c { min = min; max = max }

module _ {K H B : Type 0} ⦃k : Eq K⦄ ⦃h : Eq H⦄ where
  -- A transaction whose nonce is in the range takes the place of the one that has it.
  replace :
      ℕ → H → AccountCache H B → List (H × SortedTx K) → AccountCache H B × List (H × SortedTx K)
  unfolding insert_hash swap_remove index_of erase_found
  replace nonce hash c txs =
      let hs = insert_hash hash c.txs in
      let i = index_of nonce c in
      elim (get_elem? hs i) [
        | none ↦ (record c { txs = hs }, txs)
        | some old ↦ (record c { txs = swap_remove i hs }, erase old txs)
      ]

  track :
      Option (AccountCache H B)
      → ℕ
      → H
      → B
      → List (H × SortedTx K)
      → AccountCache H B × List (H × SortedTx K)
  unfolding replace update
  track none nonce hash balances txs =
      (record { min = nonce; max = nonce; txs = hash ∷ []; balances = balances }, txs)
  track (some c) nonce hash balances txs =
      let (c', txs') =
        (if leb c.min nonce && leb nonce c.max
          then replace nonce hash c txs
          else (update nonce hash c, txs)) in
      (record c' { balances = balances }, txs')

  add_verified : B → H → Transaction K → ℕ → ℕ → Mempool K H B → Mempool K H B
  unfolding track
  add_verified balances hash tx size now m =
      let (c, txs) = track (find tx.source m.caches) tx.nonce hash balances m.txs in
      record {
        caches = put tx.source c m.caches;
        txs = put hash (record { tx = tx; first_seen = now; size = size }) txs;
      }

  unfoldable pub is_nonce_used : K → ℕ → Mempool K H B → Bool
  is_nonce_used key nonce m = elim (find key m.caches) [
    | none ↦ false
    | some c ↦
        if leb c.min nonce && leb nonce c.max
        then elim (has_tx_with_same_nonce nonce c) [ some hash ↦ true | none ↦ false ]
        else false
  ]

  unfoldable pub contains_tx : H → Mempool K H B → Bool
  contains_tx hash m = elim (find hash m.txs) [ some s ↦ true | none ↦ false ]

  unfoldable pub clear : Mempool K H B → Mempool K H B
  clear m = record { txs = []; caches = [] }

module _ {K H B E : Type 0} ⦃k : Eq K⦄ ⦃h : Eq H⦄ where
  unfoldable pub add_tx :
      Result E (Option B)
      → H
      → Transaction K
      → ℕ
      → ℕ
      → Mempool K H B
      → Result (MempoolError K H E) (Unit {0}) × Mempool K H B
  unfolding add_verified
  add_tx (err s) hash tx size now m = (err (verification s), m)
  add_tx (ok none) hash tx size now m = (err (account_not_found tx.source), m)
  add_tx (ok (some balances)) hash tx size now m = (ok tt, add_verified balances hash tx size now m)

  -- The cache of the sender without the transaction; the caches are those before.
  remove_cached :
      H
      → K
      → AccountCache H B
      → Mempool K H B
      → Result (MempoolError K H E) (Unit {0}) × Mempool K H B
  unfolding shift_remove bounds_loop set_bounds
  remove_cached hash key c m =
      let left = shift_remove hash c.txs in
      let c' = record c { txs = left } in
      if not (contains hash c.txs)
      then (ok tt, m)
      else if length left == 0
      then (ok tt, record m { caches = erase key m.caches })
      else elim (bounds_loop m.txs left none) [
        | none ↦ (err (tx_not_found hash), record m { caches = put key c' m.caches })
        | some bounds ↦ (ok tt, record m { caches = put key (set_bounds bounds c') m.caches })
      ]

  remove_from :
      Option (AccountCache H B)
      → H
      → K
      → Mempool K H B
      → Result (MempoolError K H E) (Unit {0}) × Mempool K H B
  unfolding remove_cached
  remove_from none hash key m = (ok tt, m)
  remove_from (some c) hash key m = remove_cached hash key c m

  remove_found :
      Option (SortedTx K)
      → H
      → Mempool K H B
      → Result (MempoolError K H E) (Unit {0}) × Mempool K H B
  unfolding remove_from
  remove_found none hash m = (err (tx_not_found hash), m)
  remove_found (some s) hash m =
      remove_from (find s.tx.source m.caches) hash s.tx.source (record m { txs = erase hash m.txs })

  unfoldable pub remove_tx :
      H → Mempool K H B → Result (MempoolError K H E) (Unit {0}) × Mempool K H B
  unfolding remove_found
  remove_tx hash m = remove_found (find hash m.txs) hash m
