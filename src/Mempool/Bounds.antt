-- ===== src/Mempool/Bounds.antt =====
-- The loop of `remove_tx` in xelis_daemon/src/core/mempool.rs that finds the range of the nonces
-- anew.
use xelis_blockchain.Prelude.{
  ℕ, ◌≤◌, ◌≡◌, refl, sym, ◌∙◌, subst, ◌⊎◌, inl, inr, Bool, true, false, none, some, List, [], ◌∷◌,
  arith, ltb, if◌then◌else◌, Bool-cases, All, ◌++◌, ap,
}
use xelis_blockchain.Prelude.Equality.{Eq, beq_refl, contains, IsDistinct}
use xelis_blockchain.Mempool.Lookup.{beq_sym}
use xelis_blockchain.Mempool.{find, SortedTx, bounds_loop, bounds_step, shift_remove, ap}

module _ {H : Type 0} ⦃h : Eq H⦄ where
  absent : (hash : H) (hs : List H) → contains hash hs ≡ false → All (λ x. h.beq hash x ≡ false) hs
  absent hash [] p = tt
  absent hash (x ∷ hs) p = (beq_sym x hash (ground (arith, p)), absent hash hs (ground (arith, p)))

  both : (P Q : H → Type 0) (hs : List H) → All P hs → All Q hs → All (λ x. P x × Q x) hs
  both P Q [] p q = tt
  both P Q (x ∷ hs) (p, ps) (q, qs) = ((p, q), both P Q hs ps qs)

  -- What is left of a set has what all its elements have, and none of it is the removed one.
  pub shift_remove-All :
      (P : H → Type 0) (hash : H) (hs : List H)
      → IsDistinct hs
      → All P hs
      → All (λ x. P x × (h.beq hash x ≡ false)) (shift_remove hash hs)
  unfolding shift_remove
  shift_remove-All P hash [] d p = tt
  shift_remove-All P hash (x ∷ hs) (d, ds) (p, ps) = elim (Bool-cases (h.beq x hash)) [
    | inl q ↦ rw q (
        both P _ hs ps
          (absent hash hs (subst (λ t. contains t hs ≡ false) ((h.beq_iff x hash).0 q) d)))
    | inr q ↦ rw q ((p, beq_sym x hash q), shift_remove-All P hash hs ds ps)
  ]

  -- `left` is `hs` without the element `hash`, in the same order.
  abbrev pub IsCut : H → List H → List H → Type 0
  IsCut hash hs left =
      (before : List H) × (behind : List H) × (hs ≡ before ++ hash ∷ behind)
      × (left ≡ before ++ behind)

  IsCut-behind :
      (hash x : H) (hs left : List H) → IsCut hash hs left → IsCut hash (x ∷ hs) (x ∷ left)
  IsCut-behind hash x hs left (before, behind, p, q) =
      (x ∷ before, behind, ap (λ t. x ∷ t) p, ap (λ t. x ∷ t) q)

  pub shift_remove-IsCut :
      (hash : H) (hs : List H) → contains hash hs ≡ true → IsCut hash hs (shift_remove hash hs)
  unfolding shift_remove
  shift_remove-IsCut hash [] p = cc p
  shift_remove-IsCut hash (x ∷ hs) p = elim (Bool-cases (h.beq x hash)) [
    | inl q ↦ rw q ([], hs, ap (λ t. t ∷ hs) ((h.beq_iff x hash).0 q), refl)
    | inr q ↦ rw q (IsCut-behind hash x hs _ (shift_remove-IsCut hash hs (sym (rw q refl) ∙ p)))
  ]

  -- Where nothing is left, there was one element.
  pub IsCut-only : (hash : H) (hs : List H) → IsCut hash hs [] → hs ≡ hash ∷ []
  IsCut-only hash hs ([], [], p, q) = p
  IsCut-only hash hs ([], y ∷ ys, p, q) = cc q
  IsCut-only hash hs (y ∷ ys, behind, p, q) = cc q

module _ {K H : Type 0} ⦃h : Eq H⦄ (txs : List (H × SortedTx K)) where
  abbrev pub IsKnown : H → Type 0
  IsKnown x = (t : SortedTx K) × (find x txs ≡ some t)

  -- The nonce of the transaction is from `lo` to `hi`.
  abbrev pub IsWithin : ℕ → ℕ → H → Type 0
  IsWithin lo hi x =
      (t : SortedTx K) × (find x txs ≡ some t) × (lo ≤ t.tx.nonce) × (t.tx.nonce ≤ hi)

  -- One of the transactions has the nonce.
  abbrev pub HasNonce : List H → ℕ → Type 0
  HasNonce hs n =
      (x : H) × (t : SortedTx K) × (contains x hs ≡ true) × (find x txs ≡ some t) × (t.tx.nonce ≡ n)

  -- `min` and `max` are the least and the greatest nonce of the transactions.
  pub record IsRange (hs : List H) (min max : ℕ) : Type 0 where
    pub within : All (IsWithin min max) hs
    pub least : HasNonce hs min
    pub greatest : HasNonce hs max

  -- The same where the loop starts from a range.
  record IsWider (lo hi : ℕ) (hs : List H) (min max : ℕ) : Type 0 where
    below : min ≤ lo
    above : hi ≤ max
    within : All (IsWithin min max) hs
    least : (min ≡ lo) ⊎ HasNonce hs min
    greatest : (max ≡ hi) ⊎ HasNonce hs max

  HasNonce-behind : (x : H) (hs : List H) (n : ℕ) → HasNonce hs n → HasNonce (x ∷ hs) n
  HasNonce-behind x hs n (y, t, c, f, e) = (y, t, ground (arith, c), f, e)

  HasNonce-first :
      (x : H) (hs : List H) (t : SortedTx K) → find x txs ≡ some t → HasNonce (x ∷ hs) t.tx.nonce
  HasNonce-first x hs t f = (x, t, rw (beq_refl h x) refl, f, refl)

  -- One end of the range, after the nonce of the first transaction was taken into account.
  end_step :
      (x : H) (hs : List H) (t : SortedTx K) (old new end : ℕ)
      → find x txs ≡ some t
      → (new ≡ old) ⊎ (new ≡ t.tx.nonce)
      → (end ≡ new) ⊎ HasNonce hs end
      → (end ≡ old) ⊎ HasNonce (x ∷ hs) end
  end_step x hs t old new end f (inl p) (inl q) = inl (q ∙ p)
  end_step x hs t old new end f (inr p) (inl q) =
      inr (subst (HasNonce (x ∷ hs)) (sym (q ∙ p)) (HasNonce-first x hs t f))
  end_step x hs t old new end f p (inr q) = inr (HasNonce-behind x hs end q)

  bounds_loop-IsWider :
      (hs : List H) (lo hi : ℕ)
      → All IsKnown hs
      → (min : ℕ) × (max : ℕ) × (bounds_loop txs hs (some (lo, hi)) ≡ some (some (min, max)))
        × IsWider lo hi hs min max
  unfolding bounds_loop bounds_step
  bounds_loop-IsWider [] lo hi k = (
    lo,
    hi,
    refl,
    record {
      below = omega arith;
      above = omega arith;
      within = tt;
      least = inl refl;
      greatest = inl refl;
    },
  )
  bounds_loop-IsWider (x ∷ hs) lo hi ((t, f), k) =
      let n = t.tx.nonce in
      let lo' = if ltb n lo then n else lo in
      let hi' = if ltb hi n then n else hi in
      let (min, max, e, w) = bounds_loop-IsWider hs lo' hi' k in
      (
        min,
        max,
        rw (f, bounds_loop) e,
        record {
          below = ground (arith, w.below);
          above = ground (arith, w.above);
          within = ((t, f, ground (arith, w.below), ground (arith, w.above)), w.within);
          least = end_step x hs t lo lo' min f (if_either (ltb n lo) n lo) w.least;
          greatest = end_step x hs t hi hi' max f (if_either (ltb hi n) n hi) w.greatest;
        },
      )
    where
      if_either : (b : Bool) (n o : ℕ) → ((if b then n else o) ≡ o) ⊎ ((if b then n else o) ≡ n)
      if_either true n o = inr refl
      if_either false n o = inl refl

  -- Of one or more known transactions the loop finds the least and the greatest nonce.
  pub bounds_loop-IsRange :
      (x : H) (hs : List H)
      → All IsKnown (x ∷ hs)
      → (min : ℕ) × (max : ℕ) × (bounds_loop txs (x ∷ hs) none ≡ some (some (min, max)))
        × IsRange (x ∷ hs) min max
  unfolding bounds_loop bounds_step
  bounds_loop-IsRange x hs ((t, f), k) =
      let n = t.tx.nonce in
      let (min, max, e, w) = bounds_loop-IsWider hs n n k in
      (
        min,
        max,
        rw (f, bounds_loop) e,
        record {
          within = ((t, f, w.below, w.above), w.within);
          least = end (end_step x hs t n n min f (inr refl) w.least);
          greatest = end (end_step x hs t n n max f (inr refl) w.greatest);
        },
      )
    where
      end : {m : ℕ} → (m ≡ t.tx.nonce) ⊎ HasNonce (x ∷ hs) m → HasNonce (x ∷ hs) m
      end (inl p) = subst (HasNonce (x ∷ hs)) (sym p) (HasNonce-first x hs t f)
      end (inr p) = p
