-- ===== src/Queue/Valid.antt =====
-- The set of the keys and the order of a queue hold the same pointers.
use xelis_blockchain.Prelude.{
  ℕ, ◌+◌, ◌<◌, ◌≡◌, refl, sym, ap, ◌∙◌, subst, inl, inr, true, false, some, List, [], ◌∷◌, ◌++◌,
  arith, Bool-cases, All, All-append,
}
use xelis_blockchain.Prelude.Equality.{Eq, beq_refl}
use xelis_blockchain.Queue.{Arc, Queue, find_key, remove_key, push, has, is_some}

-- The pointers of some entries.
unfoldable pub arcs : {K V : Type 0} → List (Arc K × V) → List (Arc K)
arcs [] = []
arcs ((a, value) ∷ rest) = a ∷ arcs rest

pub arcs-append : {K V : Type 0} (xs ys : List (Arc K × V)) → arcs (xs ++ ys) ≡ arcs xs ++ arcs ys
unfolding arcs
arcs-append [] ys = refl
arcs-append ((a, value) ∷ xs) ys = ap (λ t. a ∷ t) (arcs-append xs ys)

module _ {K : Type 0} ⦃e : Eq K⦄ where
  -- `b` has another key than `a`, and was allocated later.
  abbrev pub IsAfter : Arc K → Arc K → Type 0
  IsAfter a b = (e.beq a.value b.value ≡ false) × (a.address < b.address)

  abbrev pub Apart : List (Arc K) → Type 0
  Apart [] = Unit {0}
  Apart (a ∷ rest) = All (IsAfter a) rest × Apart rest

  -- Each key stands once, and the addresses grow.
  pub record IsValid {V : Type 0} (q : Queue K V) : Type 0 where
    pub synced : q.keys ≡ arcs q.order
    pub apart : Apart q.keys
    pub fresh : All (λ a. a.address < q.next_address) q.keys

  IsBefore : K → ℕ → Arc K → Type 0
  IsBefore key next a = (e.beq a.value key ≡ false) × (a.address < next)

  Apart-snoc :
      (ps : List (Arc K)) (b : Arc K) → Apart ps → All (λ a. IsAfter a b) ps → Apart (ps ++ b ∷ [])
  Apart-snoc [] b h k = (tt, tt)
  Apart-snoc (a ∷ ps) b (h, hs) (k, ks) =
      (All-append (IsAfter a) ps (b ∷ []) h (k, tt), Apart-snoc ps b hs ks)

  pub find_key_hit :
      (key : K) (a : Arc K) (ps : List (Arc K))
      → e.beq a.value key ≡ true
      → find_key key (a ∷ ps) ≡ some a
  unfolding find_key
  find_key_hit key a ps p = rw p refl

  pub find_key_skip :
      (key : K) (a : Arc K) (ps : List (Arc K))
      → e.beq a.value key ≡ false
      → find_key key (a ∷ ps) ≡ find_key key ps
  unfolding find_key
  find_key_skip key a ps p = rw p refl

  not_found :
      (key : K) (next : ℕ) (ps : List (Arc K))
      → is_some (find_key key ps) ≡ false
      → All (λ a. a.address < next) ps
      → All (λ a. (e.beq a.value key ≡ false) × (a.address < next)) ps
  unfolding find_key is_some
  not_found key next [] h k = tt
  not_found key next (a ∷ ps) h (k, ks) = elim (Bool-cases (e.beq a.value key)) [
    | inl p ↦ cc (h, ap is_some (find_key_hit key a ps p))
    | inr p ↦ ((p, k), not_found key next ps (sym (ap is_some (find_key_skip key a ps p)) ∙ h) ks)
  ]

  All-cut :
      (P : Arc K → Type 0) (pre : List (Arc K)) (x : Arc K) (rest : List (Arc K))
      → All P (pre ++ x ∷ rest)
      → All P (pre ++ rest)
  All-cut P [] x rest (h, hs) = hs
  All-cut P (a ∷ pre) x rest (h, hs) = (h, All-cut P pre x rest hs)

  All-at :
      (P : Arc K → Type 0) (pre : List (Arc K)) (x : Arc K) (rest : List (Arc K))
      → All P (pre ++ x ∷ rest)
      → P x
  All-at P [] x rest (h, hs) = h
  All-at P (a ∷ pre) x rest (h, hs) = All-at P pre x rest hs

  pub Apart-cut :
      (pre : List (Arc K)) (x : Arc K) (rest : List (Arc K))
      → Apart (pre ++ x ∷ rest)
      → Apart (pre ++ rest)
  Apart-cut [] x rest (h, hs) = hs
  Apart-cut (a ∷ pre) x rest (h, hs) = (All-cut _ pre x rest h, Apart-cut pre x rest hs)

  -- Removing the key of an entry removes it where it stands.
  pub remove_key_at :
      (pre : List (Arc K)) (x : Arc K) (rest : List (Arc K))
      → Apart (pre ++ x ∷ rest)
      → remove_key x.value (pre ++ x ∷ rest) ≡ pre ++ rest
  unfolding remove_key
  remove_key_at [] x rest h = rw (beq_refl e x.value)
  remove_key_at (a ∷ pre) x rest (h, hs) =
      rw ((All-at (IsAfter a) pre x rest h).0, remove_key_at pre x rest hs)

  valid : {V : Type 0} (q : Queue K V) → IsValid q → Apart (arcs q.order)
  valid q v = subst Apart v.synced v.apart

  pub remove_at-IsValid :
      {V : Type 0} (pre : List (Arc K × V)) (a : Arc K) (value : V) (rest : List (Arc K × V))
      (q : Queue K V)
      → q.order ≡ pre ++ (a, value) ∷ rest
      → IsValid q
      → IsValid (record q { order = pre ++ rest; keys = remove_key a.value q.keys })
  unfolding arcs
  remove_at-IsValid pre a value rest q p v =
      let split = v.synced ∙ ap arcs p ∙ arcs-append pre ((a, value) ∷ rest) in
      let gone =
        ap (remove_key a.value) split
        ∙ remove_key_at (arcs pre) a (arcs rest) (subst Apart split v.apart) in
      record {
        synced = gone ∙ sym (arcs-append pre rest);
        apart =
            subst Apart (sym gone) (Apart-cut (arcs pre) a (arcs rest) (subst Apart split v.apart));
        fresh = subst (All (λ b. b.address < q.next_address)) (sym gone) (
            All-cut _ (arcs pre) a (arcs rest)
              (subst (All (λ b. b.address < q.next_address)) split v.fresh));
      }

  later :
      (n : ℕ) (ps : List (Arc K)) → All (λ a. a.address < n) ps → All (λ a. a.address < n + 1) ps
  later n [] h = tt
  later n (a ∷ ps) (h, hs) = (omega (arith, h), later n ps hs)

  pub push-IsValid :
      {V : Type 0} (key : K) (value : V) (q : Queue K V) → IsValid q → IsValid (push key value q).0
  unfolding push has arcs
  push-IsValid key value q v = elim (Bool-cases (has key q)) [
    | inl p ↦ rw p v
    | inr p ↦ rw p (record {
      synced =
          ap (λ ks. ks ++ record { address = q.next_address; value = key } ∷ []) v.synced
          ∙ sym (arcs-append q.order _);
      apart = Apart-snoc q.keys _ v.apart (not_found key q.next_address q.keys p v.fresh);
      fresh = All-append _ q.keys _ (later q.next_address q.keys v.fresh) (omega arith, tt);
    })
  ]
