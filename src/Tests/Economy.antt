-- ===== src/Tests/Economy.antt =====
-- Emission, fees and nonces at concrete inputs.
use xelis_blockchain.Prelude.{
  ℕ, ◌*◌, ◌/◌, ◌≤◌, ◌≡◌, refl, ◌≢◌, Bool, true, false, Option, none, some, List, [], ◌∷◌, arith,
}
use xelis_blockchain.Prelude.Equality.{nat_eq}
use xelis_blockchain.Prelude.Results.{Result, ok}
use xelis_blockchain.Economy.{get_block_reward, internal_get_block_reward, emit, maximum_supply}
use xelis_blockchain.Economy.Emission.{emit-le-maximum_supply, side_block_reward_bounds}
use xelis_blockchain.NonceChecker.{
  AccountEntry, NonceChecker, CheckerError, new_entry, insert_nonce_at_topoheight, undo_entry,
  use_nonce, contains_nonce, get,
}
use xelis_blockchain.NonceChecker.Account.{IsConsistent, insert_nonce_exact, undo-insert_nonce}
use xelis_blockchain.NonceChecker.Checker.{use_nonce_once, use_all, Use}

first_reward : get_block_reward 0 ≡ 146230061
unfolding get_block_reward
first_reward = refl

abbrev some_blocks : List (Bool × ℕ)
some_blocks = (false, 0) ∷ (true, 1) ∷ (true, 7) ∷ []

emit-le-maximum_supply_example : (0 ≤ emit some_blocks 0) × (emit some_blocks 0 ≤ maximum_supply)
emit-le-maximum_supply_example = emit-le-maximum_supply some_blocks 0 (omega arith)

side_block_reward_bounds_example :
    (internal_get_block_reward 0 true 2 ≤ get_block_reward 0 * 30 / 100)
    × (get_block_reward 0 * 5 / 100 ≤ internal_get_block_reward 0 true 2)
    × (internal_get_block_reward 0 false 2 ≡ get_block_reward 0)
side_block_reward_bounds_example = side_block_reward_bounds 0 2

abbrev started : AccountEntry
started = record { initial_nonce = 3; expected_nonce = 5; used_nonces = (3, 10) ∷ (4, 11) ∷ [] }

started-IsConsistent : IsConsistent started
started-IsConsistent = omega arith

insert_nonce_exact_example :
    ((insert_nonce_at_topoheight started 5 12).1 ≡ true)
    × IsConsistent (insert_nonce_at_topoheight started 5 12).0
    × (◌≢◌ {A = ℕ} 5 5 → (insert_nonce_at_topoheight started 5 12).0 ≡ started)
insert_nonce_exact_example = insert_nonce_exact started 5 12 started-IsConsistent (omega arith)

undo-insert_nonce_example : undo_entry (insert_nonce_at_topoheight started 5 12).0 5 ≡ started
undo-insert_nonce_example = undo-insert_nonce started 12 started-IsConsistent (omega arith)

abbrev Uses : Type 0
Uses = List (Use ℕ ℕ)

abbrev between : Uses
between =
    record { stored = ok (some 0); key = 8; nonce = 0; topoheight = 2 }
    ∷ record { stored = ok none; key = 7; nonce = 6; topoheight = 3 }
    ∷ []

abbrev stored_five : Result ℕ (Option ℕ)
stored_five = ok (some 5)

abbrev empty : NonceChecker ℕ
empty = []

abbrev first : Result (CheckerError ℕ) Bool × NonceChecker ℕ
first = use_nonce stored_five 7 5 1 empty

abbrev again : Result (CheckerError ℕ) Bool × NonceChecker ℕ
again = use_nonce stored_five 7 5 4 (use_all between first.1)

accepted : first.0 ≡ ok true
unfolding use_nonce get new_entry insert_nonce_at_topoheight contains_nonce
accepted = refl

use_nonce_once_example : (again.0 ≡ ok false) × (get 7 again.1 ≡ get 7 (use_all between first.1))
use_nonce_once_example = use_nonce_once stored_five stored_five 7 5 1 4 empty between accepted
