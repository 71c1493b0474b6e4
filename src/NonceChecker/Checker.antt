-- ===== src/NonceChecker/Checker.antt =====
-- No nonce of an account is accepted twice, however many uses of any accounts stand between.
use xelis_blockchain.Prelude.{
  ℕ, ◌≡◌, refl, true, false, Option, some, none, List, [], ◌∷◌, ◌++◌, arith, if◌then◌else◌,
  Bool-cases, sym, ◌∙◌, Bool,
}
use xelis_blockchain.Prelude.Equality.{Eq, beq_refl}
use xelis_blockchain.Prelude.Results.{Result, ok}
use xelis_blockchain.NonceChecker.{
  AccountEntry, NonceChecker, contains_key, contains_nonce, insert_nonce_at_topoheight, get, insert,
  Bool-cases, sym, use_nonce, use_found, inl, use_first, ok, inr, err, CheckerError, new_entry,
  Bool,
}

contains-append_key :
    (n : ℕ) (used : List (ℕ × ℕ)) (x : ℕ × ℕ)
    → contains_key n used ≡ true
    → contains_key n (used ++ x ∷ []) ≡ true
unfolding contains_key
contains-append_key n [] x h = cc
contains-append_key n ((m, t) ∷ rest) x h = ground (arith, contains-append_key n rest x)

contains-append_self : (n t : ℕ) (used : List (ℕ × ℕ)) → contains_key n (used ++ (n, t) ∷ []) ≡ true
unfolding contains_key
contains-append_self n t [] = ground arith
contains-append_self n t ((m, s) ∷ rest) = ground (arith, contains-append_self n t rest)

-- A nonce that is used stays used, and is refused.
insert-keeps :
    (entry : AccountEntry) (n m topo : ℕ)
    → contains_nonce entry n ≡ true
    → contains_nonce (insert_nonce_at_topoheight entry m topo).0 n ≡ true
unfolding insert_nonce_at_topoheight contains_nonce
insert-keeps entry n m topo h = ground (arith, contains-append_key n entry.used_nonces (m, topo))

insert-marks :
    (entry : AccountEntry) (n topo : ℕ)
    → (insert_nonce_at_topoheight entry n topo).1 ≡ true
    → contains_nonce (insert_nonce_at_topoheight entry n topo).0 n ≡ true
unfolding insert_nonce_at_topoheight contains_nonce
insert-marks entry n topo h = ground (arith, contains-append_self n topo entry.used_nonces)

insert-refuses :
    (entry : AccountEntry) (n topo : ℕ)
    → contains_nonce entry n ≡ true
    → insert_nonce_at_topoheight entry n topo ≡ (entry, false)
unfolding insert_nonce_at_topoheight
insert-refuses entry n topo h = ground arith

module _ {K : Type 0} ⦃e : Eq K⦄ where
  pub get-insert :
      (k j : K) (v : AccountEntry) (m : NonceChecker K)
      → get j (insert k v m) ≡ (if e.beq k j then some v else get j m)
  unfolding get insert
  get-insert k j v [] = refl
  get-insert k j v ((i, w) ∷ m) =
      ground (arith, e.beq_iff i k, e.beq_iff i j, e.beq_iff k j, get-insert k j v m)

  -- The cache knows that `n` was used by `key`.
  pub record Used (key : K) (n : ℕ) (cache : NonceChecker K) : Type 0 where
    pub entry : AccountEntry
    pub found : get key cache ≡ some entry
    pub marked : contains_nonce entry n ≡ true

-- One call of `use_nonce` with what the storage answers it.
pub record Use (K S : Type 0) : Type 0 where
  pub stored : Result S (Option ℕ)
  pub key : K
  pub nonce : ℕ
  pub topoheight : ℕ

module _ {K : Type 0} ⦃e : Eq K⦄ (key : K) (n : ℕ) (cache : NonceChecker K)
    (u : Used key n cache) where
  Used-insert :
      (k : K) (v : AccountEntry)
      → (k ≡ key → contains_nonce v n ≡ true)
      → Used key n (insert k v cache)
  Used-insert k v h = elim (Bool-cases (e.beq k key)) [
    | inl same ↦ record {
      entry = v;
      found = rw (get-insert k key v cache, same);
      marked = h ((e.beq_iff k key).0 same);
    }
    | inr other ↦ record {
      entry = u.entry;
      found = rw (get-insert k key v cache, other) u.found;
      marked = u.marked;
    }
  ]

  Used-found : (k : K) (o : Option AccountEntry) → get k cache ≡ o → k ≡ key → o ≡ some u.entry
  Used-found k o h same = sym h ∙ rw same u.found

module _ {K S : Type 0} ⦃e : Eq K⦄ where
  unfoldable pub use_all : List (Use K S) → NonceChecker K → NonceChecker K
  use_all [] cache = cache
  use_all (u ∷ rest) cache = use_all rest (use_nonce u.stored u.key u.nonce u.topoheight cache).1

  Used-use_found :
      (key : K) (n : ℕ) (cache : NonceChecker K) (u : Used key n cache) (x : Use K S)
      (o : Option AccountEntry)
      → get x.key cache ≡ o
      → Used key n (use_found o x.stored x.key x.nonce x.topoheight cache).1
  unfolding use_found use_first
  Used-use_found key n cache u x (some entry) h = Used-insert key n cache u x.key _ (λ same.
      insert-keeps entry n x.nonce x.topoheight
        (cc (Used-found key n cache u x.key (some entry) h same, u.marked)))
  Used-use_found key n cache u x none h = go x.stored
    where
      go : (r : Result S (Option ℕ)) → Used key n (use_first r x.key x.nonce x.topoheight cache).1
      go (err s) = u
      go (ok none) = u
      go (ok (some m)) =
          Used-insert key n cache u x.key _
            (λ same. cc (Used-found key n cache u x.key none h same))

  Used-use_all :
      (uses : List (Use K S)) (key : K) (n : ℕ) (cache : NonceChecker K)
      → Used key n cache
      → Used key n (use_all uses cache)
  unfolding use_all use_nonce
  Used-use_all [] key n cache u = u
  Used-use_all (x ∷ uses) key n cache u =
      Used-use_all uses key n _ (Used-use_found key n cache u x (get x.key cache) refl)

  use_nonce-Used :
      (stored : Result S (Option ℕ)) (key : K) (n topo : ℕ) (cache : NonceChecker K)
      → (use_nonce stored key n topo cache).0 ≡ ok true
      → Used key n (use_nonce stored key n topo cache).1
  unfolding use_nonce use_found use_first
  use_nonce-Used stored key n topo cache h = go (get key cache) stored h
    where
      marked :
          (entry : AccountEntry)
          → ◌≡◌ {A = Result (CheckerError S) Bool}
              (ok (insert_nonce_at_topoheight entry n topo).1)
              (ok true)
          → Used key n (insert key (insert_nonce_at_topoheight entry n topo).0 cache)
      marked entry p = record {
        entry = (insert_nonce_at_topoheight entry n topo).0;
        found = rw (get-insert key key _ cache, beq_refl e key);
        marked = insert-marks entry n topo (cc);
      }

      go :
          (o : Option AccountEntry) (r : Result S (Option ℕ))
          → (use_found o r key n topo cache).0 ≡ ok true
          → Used key n (use_found o r key n topo cache).1
      go (some entry) r p = marked entry p
      go none (err s) p = cc
      go none (ok none) p = cc
      go none (ok (some m)) p = marked (new_entry m) p

  refused :
      (stored : Result S (Option ℕ)) (key : K) (n topo : ℕ) (cache : NonceChecker K)
      (u : Used key n cache)
      → use_nonce stored key n topo cache ≡ (ok false, insert key u.entry cache)
  unfolding use_nonce use_found
  refused stored key n topo cache u = rw (u.found, insert-refuses u.entry n topo u.marked)

  -- If a use of a nonce was accepted, then after any further uses, of any accounts and whatever the storage answers, a use of the same nonce by the same account is refused and changes nothing that is known of the account.
  pub use_nonce_once :
      (stored stored' : Result S (Option ℕ)) (key : K) (n topo topo' : ℕ) (cache : NonceChecker K)
      (uses : List (Use K S))
      → (use_nonce stored key n topo cache).0 ≡ ok true
      → let later = use_all uses (use_nonce stored key n topo cache).1 in
        ((use_nonce stored' key n topo' later).0 ≡ ok false)
        × (get key (use_nonce stored' key n topo' later).1 ≡ get key later)
  use_nonce_once stored stored' key n topo topo' cache uses h =
      let later = use_all uses (use_nonce stored key n topo cache).1 in
      let u : Used key n later =
        Used-use_all uses key n _ (use_nonce-Used stored key n topo cache h) in
      rw (refused stored' key n topo' later u)
        (refl, get-insert key key u.entry later ∙ rw (beq_refl e key) (sym u.found))
