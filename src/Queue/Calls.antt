-- ===== src/Queue/Calls.antt =====
-- Sequences of calls of a queue.
use xelis_blockchain.Prelude.{
  ◌≡◌, refl, sym, ap, ◌∙◌, subst, inl, inr, Bool, true, false, Option, none, some, List, [], ◌∷◌,
  ◌++◌, append_assoc, append-nil, Bool-cases, length, take,
}
use xelis_blockchain.Prelude.Equality.{Eq}
use xelis_blockchain.Queue.{
  Arc, Queue, remove_key, push, pop, remove, get, extract_if, has, pop_order, split_at_key,
  remove_found, extract_loop, get_at, find_address,
}
use xelis_blockchain.Queue.Valid.{IsValid, push-IsValid, remove_at-IsValid}
use xelis_blockchain.Queue.Ordered.{add, take_first, delete, partition}
use xelis_blockchain.Queue.Refines.{entries, entries-append, has-member}

take_all : {A : Type 0} (xs : List A) → take (length xs) xs ≡ xs
take_all [] = refl
take_all (x ∷ xs) = ap (λ t. x ∷ t) (take_all xs)

module _ {K V : Type 0} ⦃e : Eq K⦄ where
  -- What a call does to the entries, its result, and that the queue stays valid.
  pub record IsImage {ℓ} {A : Type ℓ} (q' : Queue K V × A) (spec : List (K × V) × A) : Type ℓ where
    pub same_entries : entries q'.0.order ≡ spec.0
    pub same_result : q'.1 ≡ spec.1
    pub stays_valid : IsValid q'.0

  pub push-add :
      (key : K) (value : V) (q : Queue K V)
      → IsValid q
      → IsImage (push key value q) (add key value (entries q.order))
  unfolding push add entries
  push-add key value q v = elim (Bool-cases (has key q)) [
    | inl p ↦
        rw (sym (has-member key q v), p)
          (record { same_entries = refl; same_result = refl; stays_valid = v })
    | inr p ↦ record {
      same_entries = rw (sym (has-member key q v), p) (entries-append q.order _);
      same_result = rw (sym (has-member key q v), p) refl;
      stays_valid = push-IsValid key value q v;
    }
  ]

  pop_order-take_first :
      (o : List (Arc K × V)) (q : Queue K V)
      → q.order ≡ o
      → IsValid q
      → IsImage (pop_order o q) (take_first (entries o))
  unfolding pop_order take_first entries
  pop_order-take_first [] q p v = record {
    same_entries = ap entries p;
    same_result = refl;
    stays_valid = v;
  }
  pop_order-take_first ((a, value) ∷ rest) q p v = record {
    same_entries = refl;
    same_result = refl;
    stays_valid = remove_at-IsValid [] a value rest q p v;
  }

  -- Where a key stands, and what its deletion leaves.
  IsCut : K → List (Arc K × V) → Option (List (Arc K × V) × (Arc K × V) × List (Arc K × V)) → Type 0
  IsCut key o none = delete key (entries o) ≡ (entries o, none)
  IsCut key o (some (before, (a, value), behind)) =
      (o ≡ before ++ (a, value) ∷ behind)
      × (delete key (entries o) ≡ (entries (before ++ behind), some (a.value, value)))

  delete_hit :
      (key : K) (k : K) (value : V) (xs : List (K × V))
      → e.beq k key ≡ true
      → delete key ((k, value) ∷ xs) ≡ (xs, some (k, value))
  unfolding delete
  delete_hit key k value xs p = rw p refl

  delete_skip :
      (key : K) (k : K) (value : V) (xs : List (K × V))
      → e.beq k key ≡ false
      → delete key ((k, value) ∷ xs) ≡ ((k, value) ∷ (delete key xs).0, (delete key xs).1)
  unfolding delete
  delete_skip key k value xs p = rw p refl

  push_split :
      Arc K
      → V
      → Option (List (Arc K × V) × (Arc K × V) × List (Arc K × V))
      → Option (List (Arc K × V) × (Arc K × V) × List (Arc K × V))
  push_split a value none = none
  push_split a value (some (before, x, behind)) = some ((a, value) ∷ before, x, behind)

  split_hit :
      (key : K) (a : Arc K) (value : V) (rest : List (Arc K × V))
      → e.beq a.value key ≡ true
      → split_at_key key ((a, value) ∷ rest) ≡ some ([], (a, value), rest)
  unfolding split_at_key
  split_hit key a value rest p = rw p refl

  split_skip :
      (key : K) (a : Arc K) (value : V) (rest : List (Arc K × V))
      → e.beq a.value key ≡ false
      → split_at_key key ((a, value) ∷ rest) ≡ push_split a value (split_at_key key rest)
  unfolding split_at_key push_split
  split_skip key a value rest p =
      rw p (elim (split_at_key key rest) [ none ↦ refl | some (b, x, c) ↦ refl ])

  IsCut-push :
      (key : K) (a : Arc K) (value : V) (rest : List (Arc K × V))
      → e.beq a.value key ≡ false
      → (s : Option (List (Arc K × V) × (Arc K × V) × List (Arc K × V))) → IsCut key rest s
      → IsCut key ((a, value) ∷ rest) (push_split a value s)
  unfolding IsCut push_split entries
  IsCut-push key a value rest p none h =
      delete_skip key a.value value (entries rest) p ∙ ap (λ d. ((a.value, value) ∷ d.0, d.1)) h
  IsCut-push key a value rest p (some (before, (b, w), behind)) (h, k) = (
    ap (λ t. (a, value) ∷ t) h,
    delete_skip key a.value value (entries rest) p ∙ ap (λ d. ((a.value, value) ∷ d.0, d.1)) k,
  )

  split_first :
      (key : K) (a : Arc K) (value : V) (rest : List (Arc K × V))
      → e.beq a.value key ≡ true
      → IsCut key ((a, value) ∷ rest) (some ([], (a, value), rest))
  unfolding IsCut entries
  split_first key a value rest p = (refl, delete_hit key a.value value (entries rest) p)

  split-IsCut : (key : K) (o : List (Arc K × V)) → IsCut key o (split_at_key key o)
  unfolding IsCut split_at_key delete entries
  split-IsCut key [] = refl
  split-IsCut key ((a, value) ∷ rest) = elim (Bool-cases (e.beq a.value key)) [
    | inl p ↦
        subst (IsCut key ((a, value) ∷ rest)) (sym (split_hit key a value rest p))
          (split_first key a value rest p)
    | inr p ↦
        subst (IsCut key ((a, value) ∷ rest)) (sym (split_skip key a value rest p))
          (IsCut-push key a value rest p (split_at_key key rest) (split-IsCut key rest))
  ]

  remove_found-delete :
      (key : K) (q : Queue K V)
      → IsValid q
      → (s : Option (List (Arc K × V) × (Arc K × V) × List (Arc K × V))) → IsCut key q.order s
      → IsImage (remove_found s q) (delete key (entries q.order))
  unfolding remove_found IsCut
  remove_found-delete key q v none h =
      rw h (record { same_entries = refl; same_result = refl; stays_valid = v })
  remove_found-delete key q v (some (before, (a, value), behind)) (h, k) = rw k (record {
    same_entries = refl;
    same_result = refl;
    stays_valid = remove_at-IsValid before a value behind q h v;
  })

  pub pop-take_first : (q : Queue K V) → IsValid q → IsImage (pop q) (take_first (entries q.order))
  unfolding pop
  pop-take_first q v = pop_order-take_first q.order q refl v

  pub remove-delete :
      (key : K) (q : Queue K V) → IsValid q → IsImage (remove key q) (delete key (entries q.order))
  unfolding remove
  remove-delete key q v = remove_found-delete key q v _ (split-IsCut key q.order)

  partition_hit :
      (f : K → V → Bool) (k : K) (value : V) (xs : List (K × V))
      → f k value ≡ true
      → partition f ((k, value) ∷ xs) ≡ ((partition f xs).0, (k, value) ∷ (partition f xs).1)
  unfolding partition
  partition_hit f k value xs p = rw p refl

  partition_skip :
      (f : K → V → Bool) (k : K) (value : V) (xs : List (K × V))
      → f k value ≡ false
      → partition f ((k, value) ∷ xs) ≡ ((k, value) ∷ (partition f xs).0, (partition f xs).1)
  unfolding partition
  partition_skip f k value xs p = rw p refl

  extract_loop-partition :
      (f : K → V → Bool) (o : List (Arc K × V)) (q : Queue K V)
      → IsValid (record q { order = q.order ++ o })
      → IsImage
          (extract_loop f o q)
          (entries q.order ++ (partition f (entries o)).0, (partition f (entries o)).1)
  unfolding extract_loop entries partition
  extract_loop-partition f [] q v = record {
    same_entries = sym (append-nil (entries q.order));
    same_result = refl;
    stays_valid = subst (λ o. IsValid (record q { order = o })) (append-nil q.order) v;
  }
  extract_loop-partition f ((a, value) ∷ rest) q v = elim (Bool-cases (f a.value value)) [
    | inl p ↦
        let next =
          extract_loop-partition f rest (record q { keys = remove_key a.value q.keys })
            (remove_at-IsValid q.order a value rest
              (record q { order = q.order ++ (a, value) ∷ rest }) refl v) in
        record {
          same_entries = rw (p, extract_loop) next.same_entries;
          same_result = rw p (ap (λ t. (a.value, value) ∷ t) next.same_result);
          stays_valid = rw p next.stays_valid;
        }
    | inr p ↦
        let next =
          extract_loop-partition f rest (record q { order = q.order ++ (a, value) ∷ [] })
            (subst (λ o. IsValid (record q { order = o }))
              (sym (append_assoc q.order ((a, value) ∷ []) rest)) v) in
        record {
          same_entries = rw p (
              next.same_entries
              ∙ rw (entries-append q.order ((a, value) ∷ [])) (append_assoc (entries q.order) _ _));
          same_result = rw p next.same_result;
          stays_valid = rw p next.stays_valid;
        }
  ]

  pub extract_if-partition :
      (f : K → V → Bool) (q : Queue K V)
      → IsValid q
      → IsImage (extract_if f (length q.order) q) (partition f (entries q.order))
  unfolding extract_if entries
  extract_if-partition f q v =
      rw (take_all q.order) (extract_loop-partition f q.order (record q { order = [] }) v)

  nothing_at : (found : Option (Arc K)) (q : Queue K V) → q.order ≡ [] → get_at found q ≡ none
  unfolding get_at find_address
  nothing_at none q p = refl
  nothing_at (some a) q p = rw p refl

  -- If the iterator of `extract_if` is dropped before its first entry, the entries are lost while the keys stay: a key that was in the queue is still in it, has no value, and cannot be pushed.
  pub extract_if-dropped :
      (f : K → V → Bool) (key : K) (value : V) (q : Queue K V)
      → has key q ≡ true
      → let q' = (extract_if f 0 q).0 in
        (has key q' ≡ true) × (get key q' ≡ none) × ((push key value q').1 ≡ false)
  unfolding extract_if extract_loop has get push
  extract_if-dropped f key value q h = (h, nothing_at _ (record q { order = [] }) refl, rw h refl)
