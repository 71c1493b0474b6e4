-- ===== src/NonceChecker/Account.antt =====
-- One account's entry: the used nonces are a run of consecutive numbers.
use xelis_blockchain.Prelude.{
  ℕ, suc, ◌+◌, ◌^◌, ◌<◌, ◌≡◌, refl, sym, ap, ◌∙◌, subst, ◌≢◌, true, false, ◌&&◌, some, List, [],
  ◌∷◌, ◌++◌, arith, ltb, leb, ◌==◌, length, length-append, ==_iff,
}
use native.Mathlib.Decide.{ℕ_discrete}
use xelis_blockchain.NonceChecker.{
  AccountEntry, contains_key, shift_remove, last, contains_nonce, insert_nonce_at_topoheight,
  undo_entry, revert_expected,
}

-- The entries of `used` are `start`, `start + 1`, and so on.
abbrev pub IsRun : ℕ → List (ℕ × ℕ) → Type 0
IsRun start [] = Unit {0}
IsRun start ((n, topo) ∷ rest) = (n ≡ start) × IsRun (start + 1) rest

pub record IsConsistent (entry : AccountEntry) : Type 0 where
  pub run : IsRun entry.initial_nonce entry.used_nonces
  pub next : entry.expected_nonce ≡ entry.initial_nonce + length entry.used_nonces

-- A nonce is in a run exactly when it lies between its ends.
contains-run :
    (start : ℕ) (used : List (ℕ × ℕ)) (nonce : ℕ)
    → IsRun start used
    → contains_key nonce used ≡ (leb start nonce && ltb nonce (start + length used))
unfolding contains_key
contains-run start [] nonce h = ground arith
contains-run start ((n, topo) ∷ rest) nonce (h, hs) =
    ground (arith, contains-run (start + 1) rest nonce hs)

IsRun-append :
    (start : ℕ) (used : List (ℕ × ℕ)) (topo : ℕ)
    → IsRun start used
    → IsRun start (used ++ (start + length used, topo) ∷ [])
IsRun-append start [] topo h = (omega arith, tt)
IsRun-append start ((n, t) ∷ rest) topo (h, hs) = (
  h,
  subst (λ k. IsRun (start + 1) (rest ++ (k, topo) ∷ [])) (omega arith)
      (IsRun-append (start + 1) rest topo hs),
)

module _ (entry : AccountEntry) (topo : ℕ) (c : IsConsistent entry)
    (h : entry.expected_nonce + 1 < 2 ^ 64) where
  abbrev used_next : AccountEntry
  used_next = record entry {
    expected_nonce = entry.expected_nonce + 1;
    used_nonces = entry.used_nonces ++ (entry.expected_nonce, topo) ∷ [];
  }

  accepts : insert_nonce_at_topoheight entry entry.expected_nonce topo ≡ (used_next, true)
  unfolding insert_nonce_at_topoheight contains_nonce
  accepts =
      ground (arith, contains-run entry.initial_nonce entry.used_nonces entry.expected_nonce c.run)

  used_next-IsConsistent : IsConsistent used_next
  used_next-IsConsistent = record {
    run =
        subst (λ k. IsRun entry.initial_nonce (entry.used_nonces ++ (k, topo) ∷ [])) (sym c.next)
          (IsRun-append entry.initial_nonce entry.used_nonces topo c.run);
    next = omega (arith, length-append entry.used_nonces ((entry.expected_nonce, topo) ∷ []));
  }

refuses :
    (entry : AccountEntry) (nonce topo : ℕ)
    → nonce ≢ entry.expected_nonce
    → insert_nonce_at_topoheight entry nonce topo ≡ (entry, false)
unfolding insert_nonce_at_topoheight
refuses entry nonce topo h = ground (arith, ==_iff nonce entry.expected_nonce)

-- In a consistent entry below the end of u64 exactly the expected nonce is accepted; the entry stays consistent whatever nonce is offered, and a refused nonce changes nothing.
pub insert_nonce_exact :
    (entry : AccountEntry) (nonce topo : ℕ)
    → IsConsistent entry
    → entry.expected_nonce + 1 < 2 ^ 64
    → ((insert_nonce_at_topoheight entry nonce topo).1 ≡ (nonce == entry.expected_nonce))
      × IsConsistent (insert_nonce_at_topoheight entry nonce topo).0
      × ((nonce ≢ entry.expected_nonce) → (insert_nonce_at_topoheight entry nonce topo).0 ≡ entry)
insert_nonce_exact entry nonce topo c h = elim (ℕ_discrete nonce entry.expected_nonce) [
  | yes p ↦ rw p (
      rw (accepts entry topo c h) (
        sym ((==_iff entry.expected_nonce entry.expected_nonce).1 refl),
        used_next-IsConsistent entry topo c h,
        λ q. absurd (q refl),
      ))
  | no p ↦
      rw (refuses entry nonce topo p)
        (ground (arith, ==_iff nonce entry.expected_nonce), c, λ _. refl)
]

shift_remove-append :
    (start : ℕ) (used : List (ℕ × ℕ)) (topo : ℕ)
    → IsRun start used
    → shift_remove (start + length used) (used ++ (start + length used, topo) ∷ []) ≡ used
unfolding shift_remove
shift_remove-append start [] topo h = ground arith
shift_remove-append start ((n, t) ∷ rest) topo (h, hs) =
    let e : start + 1 + length rest ≡ start + suc (length rest) = omega arith in
    let ih =
      subst (λ k. shift_remove k (rest ++ (k, topo) ∷ []) ≡ rest) e
        (shift_remove-append (start + 1) rest topo hs) in
    ground (arith, ih)

last-run :
    (start : ℕ) (x : ℕ × ℕ) (rest : List (ℕ × ℕ))
    → IsRun start (x ∷ rest)
    → (t : ℕ) × (last (x ∷ rest) ≡ some (start + length rest, t))
unfolding last
last-run start (n, t) [] (h, _) = (t, ground arith)
last-run start (n, t) (y ∷ rest) (h, hs) =
    let (t', e) = last-run (start + 1) y rest hs in (t', e ∙ ap (λ k. some (k, t')) (omega arith))

-- The expected nonce that `undo_nonce` computes from what is left is the one behind the run.
revert_run :
    (entry : AccountEntry)
    → IsConsistent entry
    → entry.expected_nonce < 2 ^ 64
    → (n : ℕ)
    → revert_expected (record entry { expected_nonce = n }) (last entry.used_nonces) ≡ entry
unfolding revert_expected last
revert_run entry c h n = go entry.used_nonces refl
  where
    go :
        (used : List (ℕ × ℕ))
        → entry.used_nonces ≡ used
        → revert_expected (record entry { expected_nonce = n }) (last entry.used_nonces) ≡ entry
    go [] e = rw e (ground (arith, c.next, ap length e))
    go (x ∷ rest) e =
        let (t, l) =
          last-run entry.initial_nonce x rest (subst (IsRun entry.initial_nonce) e c.run) in
        ground (arith, e, l, c.next, ap length e)

-- Undoing the nonce that was used last restores the entry as it was.
pub undo-insert_nonce :
    (entry : AccountEntry) (topo : ℕ)
    → IsConsistent entry
    → entry.expected_nonce + 1 < 2 ^ 64
    → undo_entry (insert_nonce_at_topoheight entry entry.expected_nonce topo).0 entry.expected_nonce
      ≡ entry
unfolding undo_entry
undo-insert_nonce entry topo c h =
    rw (accepts entry topo c h)
      (rw back (revert_run entry c (omega arith) (entry.expected_nonce + 1)))
  where
    back :
        shift_remove entry.expected_nonce (entry.used_nonces ++ (entry.expected_nonce, topo) ∷ [])
        ≡ entry.used_nonces
    back =
        subst (λ k. shift_remove k (entry.used_nonces ++ (k, topo) ∷ []) ≡ entry.used_nonces)
          (sym c.next) (shift_remove-append entry.initial_nonce entry.used_nonces topo c.run)
