-- ===== src/Queue/Runs.antt =====
-- Any run of push, pop, remove, has, get, get_mut, len, clear and extract_if (which is run to its
-- end) gives the results of an ordered list without a key twice.
use xelis_blockchain.Prelude.{refl, ap, ◌∙◌, Bool, Option, List, [], ◌∷◌, length, ℕ}
use xelis_blockchain.Prelude.Equality.{Eq}
use xelis_blockchain.Queue.{Queue, push, pop, remove, get, get_mut, len, extract_if, has}
use xelis_blockchain.Queue
use xelis_blockchain.Queue.Change.{get_mut-change, get_mut-IsValid, clear-IsValid, length-entries}
use xelis_blockchain.Queue.Valid.{IsValid}
use xelis_blockchain.Queue.Ordered.{lookup, member, change, add, take_first, delete, partition}
use xelis_blockchain.Queue.Refines.{entries, has-member, get-lookup}
use xelis_blockchain.Queue.Calls.{
  IsImage, push-add, pop-take_first, remove-delete, extract_if-partition,
}

module _ (K V : Type 0) where
  pub data Call : Type 0 where
    add_last : K → V → Call
    pop_first : Call
    remove_key : K → Call
    has_key : K → Call
    get_value : K → Call
    -- what `get_mut` gives, and then a change through the reference
    change_value : K → (V → V) → Call
    count_entries : Call
    clear_all : Call
    -- the iterator is run to its end
    extract : (K → V → Bool) → Call

  pub data Answer : Type 0 where
    yes_no : Bool → Answer
    entry : Option (K × V) → Answer
    value : Option V → Answer
    extracted : List (K × V) → Answer
    count : ℕ → Answer
    nothing : Answer

module _ {K V : Type 0} ⦃e : Eq K⦄ where
  unfoldable pub call : Call K V → Queue K V → Queue K V × Answer K V
  call (add_last k v) q = let (q', done) = push k v q in (q', yes_no done)
  call pop_first q = let (q', x) = pop q in (q', entry x)
  call (remove_key k) q = let (q', x) = remove k q in (q', entry x)
  call (has_key k) q = (q, yes_no (has k q))
  call (get_value k) q = (q, value (get k q))
  call (change_value k f) q = (get_mut k f q, value (get k q))
  call count_entries q = (q, count (len q))
  call clear_all q = (Queue.clear q, nothing)
  call (extract f) q = let (q', xs) = extract_if f (length q.order) q in (q', extracted xs)

  unfoldable pub meaning : Call K V → List (K × V) → List (K × V) × Answer K V
  meaning (add_last k v) xs = let (ys, done) = add k v xs in (ys, yes_no done)
  meaning pop_first xs = let (ys, x) = take_first xs in (ys, entry x)
  meaning (remove_key k) xs = let (ys, x) = delete k xs in (ys, entry x)
  meaning (has_key k) xs = (xs, yes_no (member k xs))
  meaning (get_value k) xs = (xs, value (lookup k xs))
  meaning (change_value k f) xs = (change k f xs, value (lookup k xs))
  meaning count_entries xs = (xs, count (length xs))
  meaning clear_all xs = ([], nothing)
  meaning (extract f) xs = let (ys, out) = partition f xs in (ys, extracted out)

  unfoldable pub run : List (Call K V) → Queue K V → Queue K V × List (Answer K V)
  run [] q = (q, [])
  run (c ∷ rest) q =
      let (q', a) = call c q in let (q'', answers) = run rest q' in (q'', a ∷ answers)

  unfoldable pub meaning_all : List (Call K V) → List (K × V) → List (K × V) × List (Answer K V)
  meaning_all [] xs = (xs, [])
  meaning_all (c ∷ rest) xs =
      let (ys, a) = meaning c xs in let (zs, answers) = meaning_all rest ys in (zs, a ∷ answers)

  answered :
      {A : Type 0} (f : A → Answer K V) (m : Queue K V × A) (n : List (K × V) × A)
      → IsImage m n
      → IsImage (m.0, f m.1) (n.0, f n.1)
  answered f m n i = record {
    same_entries = i.same_entries;
    same_result = ap f i.same_result;
    stays_valid = i.stays_valid;
  }

  call-meaning :
      (c : Call K V) (q : Queue K V) → IsValid q → IsImage (call c q) (meaning c (entries q.order))
  unfolding call meaning Queue.clear entries
  call-meaning (add_last k v) q h = answered yes_no _ _ (push-add k v q h)
  call-meaning pop_first q h = answered entry _ _ (pop-take_first q h)
  call-meaning (remove_key k) q h = answered entry _ _ (remove-delete k q h)
  call-meaning (has_key k) q h = record {
    same_entries = refl;
    same_result = ap yes_no (has-member k q h);
    stays_valid = h;
  }
  call-meaning (get_value k) q h = record {
    same_entries = refl;
    same_result = ap value (get-lookup k q h);
    stays_valid = h;
  }
  call-meaning (change_value k f) q h = record {
    same_entries = get_mut-change k f q h;
    same_result = ap value (get-lookup k q h);
    stays_valid = get_mut-IsValid k f q h;
  }
  call-meaning count_entries q h = record {
    same_entries = refl;
    same_result = ap count (length-entries q);
    stays_valid = h;
  }
  call-meaning clear_all q h = record {
    same_entries = refl;
    same_result = refl;
    stays_valid = clear-IsValid q;
  }
  call-meaning (extract f) q h = answered extracted _ _ (extract_if-partition f q h)

  -- From a valid queue every run of push, pop, remove, has, get, changes of a value through get_mut, len, clear, and extract_if run to its end leaves a valid queue, gives the answers that an ordered list with each key at most once gives, and leaves the entries of that list.
  pub run-meaning :
      (calls : List (Call K V)) (q : Queue K V)
      → IsValid q
      → IsImage (run calls q) (meaning_all calls (entries q.order))
  unfolding run meaning_all
  run-meaning [] q h = record { same_entries = refl; same_result = refl; stays_valid = h }
  run-meaning (c ∷ rest) q h =
      let i = call-meaning c q h in
      let j = run-meaning rest (call c q).0 i.stays_valid in
      record {
        same_entries = j.same_entries ∙ ap (λ xs. (meaning_all rest xs).0) i.same_entries;
        same_result =
            ap (λ a. a ∷ (run rest (call c q).0).1) i.same_result
            ∙ ap (λ t. (meaning c (entries q.order)).1 ∷ t)
                (j.same_result ∙ ap (λ xs. (meaning_all rest xs).1) i.same_entries);
        stays_valid = j.stays_valid;
      }
