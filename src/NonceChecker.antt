-- ===== src/NonceChecker.antt =====
-- xelis_daemon/src/core/nonce_checker.rs: which nonces the blocks of one ordering have used.
-- A u64 wraps at 2 ^ 64. The storage's answer is an argument.
pub mod Account
pub mod Checker
use xelis_blockchain.Prelude.{
  ℕ, zero, suc, ◌+◌, ◌-◌, ◌*◌, ◌/◌, ◌%◌, ◌^◌, ◌≤◌, ◌<◌, ◌≡◌, refl, sym, ap, ◌∙◌, subst, ◌≢◌, ◌↔◌,
  ◌⊎◌, inl, inr, Bool, true, false, not, ◌&&◌, ◌||◌, Option, none, some, List, [], ◌∷◌, ◌++◌, map,
  append_assoc, append-nil, arith, ltb, leb, ◌==◌, if◌then◌else◌, Bool-cases, Option-cases, length,
  get_elem?, take, drop, All, length-append,
}
use xelis_blockchain.Prelude.Equality.{Eq}
use xelis_blockchain.Prelude.Results.{Result, ok, err}

abbrev u64_mod : ℕ
u64_mod = 2 ^ 64

-- An `IndexMap` keeps its entries in the order of insertion; the last one is the newest.
pub record AccountEntry : Type 0 where
  pub initial_nonce : ℕ
  pub expected_nonce : ℕ
  pub used_nonces : List (ℕ × ℕ)

unfoldable pub new_entry : ℕ → AccountEntry
new_entry nonce = record { initial_nonce = nonce; expected_nonce = nonce; used_nonces = [] }

contains_key : ℕ → List (ℕ × ℕ) → Bool
contains_key nonce [] = false
contains_key nonce ((n, topo) ∷ rest) = n == nonce || contains_key nonce rest

-- `IndexMap::shift_remove`
shift_remove : ℕ → List (ℕ × ℕ) → List (ℕ × ℕ)
shift_remove nonce [] = []
shift_remove nonce ((n, topo) ∷ rest) =
    let others = shift_remove nonce rest in if n == nonce then rest else (n, topo) ∷ others

-- `IndexMap::last`
last : List (ℕ × ℕ) → Option (ℕ × ℕ)
last [] = none
last (x ∷ []) = some x
last (x ∷ (y ∷ rest)) = last (y ∷ rest)

unfoldable pub contains_nonce : AccountEntry → ℕ → Bool
unfolding contains_key
contains_nonce entry nonce = contains_key nonce entry.used_nonces

unfoldable pub insert_nonce_at_topoheight : AccountEntry → ℕ → ℕ → AccountEntry × Bool
insert_nonce_at_topoheight entry nonce topoheight =
    if contains_nonce entry nonce || not (nonce == entry.expected_nonce) then (entry, false) else (
      record entry {
        expected_nonce = (nonce + 1) % u64_mod;
        used_nonces = entry.used_nonces ++ (nonce, topoheight) ∷ [];
      },
      true,
    )

revert_expected : AccountEntry → Option (ℕ × ℕ) → AccountEntry
revert_expected entry (some (prev_nonce, _)) = record entry {
  expected_nonce = (prev_nonce + 1) % u64_mod;
}
revert_expected entry none = record entry { expected_nonce = entry.initial_nonce }

-- The body of `undo_nonce` on the entry that it finds.
unfoldable pub undo_entry : AccountEntry → ℕ → AccountEntry
unfolding shift_remove last revert_expected
undo_entry entry nonce =
    let used = shift_remove nonce entry.used_nonces in
    revert_expected (record entry { used_nonces = used }) (last used)

pub data CheckerError (S : Type 0) : Type 0 where
  account_not_found : CheckerError S
  storage : S → CheckerError S

-- `HashMap<PublicKey, AccountEntry>`; the order of its entries is never read.
abbrev pub NonceChecker : Type 0 → Type 0
NonceChecker K = List (K × AccountEntry)

module _ {K : Type 0} ⦃e : Eq K⦄ where
  unfoldable pub get : K → NonceChecker K → Option AccountEntry
  get key [] = none
  get key ((k, entry) ∷ rest) = if e.beq k key then some entry else get key rest

  unfoldable pub insert : K → AccountEntry → NonceChecker K → NonceChecker K
  insert key entry [] = (key, entry) ∷ []
  insert key entry ((k, old) ∷ rest) =
      if e.beq k key then (k, entry) ∷ rest else (k, old) ∷ insert key entry rest

  undo_found : K → ℕ → NonceChecker K → Option AccountEntry → NonceChecker K
  undo_found key nonce cache none = cache
  undo_found key nonce cache (some entry) = insert key (undo_entry entry nonce) cache

  unfoldable pub undo_nonce : K → ℕ → NonceChecker K → NonceChecker K
  unfolding undo_found
  undo_nonce key nonce cache = undo_found key nonce cache (get key cache)

module _ {K S : Type 0} ⦃e : Eq K⦄ where
  -- The first use of an account reads its nonce from the storage; the entry is kept also when
  -- the nonce is refused.
  use_first :
      Result S (Option ℕ)
      → K
      → ℕ
      → ℕ
      → NonceChecker K
      → Result (CheckerError S) Bool × NonceChecker K
  use_first (err s) key nonce topoheight cache = (err (storage s), cache)
  use_first (ok none) key nonce topoheight cache = (err account_not_found, cache)
  use_first (ok (some stored_nonce)) key nonce topoheight cache =
      let (entry, valid) = insert_nonce_at_topoheight (new_entry stored_nonce) nonce topoheight in
      (ok valid, insert key entry cache)

  use_found :
      Option AccountEntry
      → Result S (Option ℕ)
      → K
      → ℕ
      → ℕ
      → NonceChecker K
      → Result (CheckerError S) Bool × NonceChecker K
  unfolding use_first
  use_found (some entry) stored key nonce topoheight cache =
      let (entry', valid) = insert_nonce_at_topoheight entry nonce topoheight in
      (ok valid, insert key entry' cache)
  use_found none stored key nonce topoheight cache = use_first stored key nonce topoheight cache

  -- `stored` is what the storage answers for the key at the topoheight: an error, no nonce, or one.
  unfoldable pub use_nonce :
      Result S (Option ℕ)
      → K
      → ℕ
      → ℕ
      → NonceChecker K
      → Result (CheckerError S) Bool × NonceChecker K
  unfolding use_found
  use_nonce stored key nonce topoheight cache =
      use_found (get key cache) stored key nonce topoheight cache

  unfoldable pub get_new_nonce : K → NonceChecker K → Result (CheckerError S) ℕ
  get_new_nonce key cache = elim (get key cache) [
    | some entry ↦ ok entry.expected_nonce
    | none ↦ err account_not_found
  ]
