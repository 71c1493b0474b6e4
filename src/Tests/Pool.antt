-- ===== src/Tests/Pool.antt =====
-- The mempool at concrete inputs: accounts and hashes are numbers.
use xelis_blockchain.Prelude.{
  ℕ, ◌≡◌, refl, ◌⊎◌, false, ◌&&◌, Option, none, some, List, [], ◌∷◌, arith, leb,
}
use xelis_blockchain.Prelude.Equality.{nat_eq}
use xelis_blockchain.Prelude.Results.{Result, ok}
use xelis_blockchain.Mempool.{
  find, Transaction, SortedTx, AccountCache, Mempool, has_tx_with_same_nonce, add_tx, remove_tx,
}
use xelis_blockchain.Mempool.Removal.{IsLeft, IsUpdated, IsWithout, remove_tx_lem}
use xelis_blockchain.Mempool.Ranges.{
  IsRun, InOrder, IsValid, has_tx_with_same_nonce_exact, has_tx_with_same_nonce_gap, add_tx-IsValid,
}

abbrev waiting : ℕ → SortedTx ℕ
waiting n = record { tx = record { source = 1; nonce = n }; first_seen = 0; size = 100 }

abbrev known : List (ℕ × SortedTx ℕ)
known = (50, waiting 5) ∷ (60, waiting 6) ∷ []

abbrev account : AccountCache ℕ ℕ
account = record { min = 5; max = 6; txs = 50 ∷ 60 ∷ []; balances = 0 }

account-InOrder : InOrder known account
unfolding IsRun find
account-InOrder = record {
  run = ((waiting 5, refl, refl), ((waiting 6, refl, refl), tt));
  range = refl;
  some_nonce = omega arith;
  bounded = omega arith;
}

abbrev pool : Mempool ℕ ℕ ℕ
pool = record { txs = known; caches = (1, account) ∷ [] }

pool-IsValid : IsValid pool
unfolding IsValid
pool-IsValid = (account-InOrder, tt)

has_tx_with_same_nonce_exact_example :
    (((leb 5 6 && leb 6 6) ≡ false) × (has_tx_with_same_nonce 6 account ≡ none))
    ⊎ ((hash : ℕ) × (s : SortedTx ℕ) × (has_tx_with_same_nonce 6 account ≡ some hash)
        × (find hash known ≡ some s)
        × (s.tx.nonce ≡ 6))
has_tx_with_same_nonce_exact_example = has_tx_with_same_nonce_exact known account 6 account-InOrder

abbrev gap : AccountCache ℕ ℕ
gap = record { min = 5; max = 7; txs = 50 ∷ 70 ∷ []; balances = 0 }

has_tx_with_same_nonce_gap_example : has_tx_with_same_nonce 7 gap ≡ none
has_tx_with_same_nonce_gap_example =
    has_tx_with_same_nonce_gap gap (omega arith) (omega arith) (omega arith)

abbrev verified : Result ℕ (Option ℕ)
verified = ok (some 9)

abbrev next_tx : Transaction ℕ
next_tx = record { source = 1; nonce = 7 }

is_new : find 70 pool.txs ≡ none
unfolding find
is_new = refl

add_tx-IsValid_example : IsValid (add_tx verified 70 next_tx 100 3 pool).1
unfolding find
add_tx-IsValid_example =
    add_tx-IsValid verified 70 next_tx 100 3 pool is_new refl (omega arith) pool-IsValid

-- Two accounts; the second has one transaction.
abbrev other_account : AccountCache ℕ ℕ
other_account = record { min = 3; max = 3; txs = 30 ∷ []; balances = 8 }

abbrev other_tx : SortedTx ℕ
other_tx = record { tx = record { source = 2; nonce = 3 }; first_seen = 0; size = 90 }

abbrev two_accounts : Mempool ℕ ℕ ℕ
two_accounts = record {
  txs = (50, waiting 5) ∷ (30, other_tx) ∷ (60, waiting 6) ∷ [];
  caches = (1, account) ∷ (2, other_account) ∷ [];
}

remove_tx_lem_example :
    let m' = (remove_tx {E = ℕ} 60 two_accounts).1 in
    ((remove_tx {E = ℕ} 60 two_accounts).0 ≡ ok tt)
    × IsWithout 60 two_accounts m'
    × ((left : Option (AccountCache ℕ ℕ)) × IsLeft m'.txs 60 account left
        × IsUpdated 1 left two_accounts m')
unfolding find
remove_tx_lem_example =
    remove_tx_lem ℕ 60 (waiting 6) account two_accounts refl refl refl (refl, (refl, tt))
      ((waiting 5, refl), ((waiting 6, refl), tt)) (refl, (refl, (refl, tt))) (refl, (refl, tt))
