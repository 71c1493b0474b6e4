-- ===== src/BlockDag.antt =====
-- xelis_daemon/src/core/blockdag.rs: the order of tips, the height above them, and the best of them.
-- What the storage answers for a hash is an argument. A cumulative difficulty is a number, whose
-- bound of 256 bits no function here reads. The tips are in the order in which they are iterated.
pub mod Order
pub mod Sorting
pub mod Tips
use xelis_blockchain.Prelude.{
  ℕ, zero, suc, ◌+◌, ◌-◌, ◌*◌, ◌/◌, ◌%◌, ◌^◌, ◌≤◌, ◌<◌, ◌≡◌, refl, sym, ap, ◌∙◌, subst, ◌≢◌, ◌↔◌,
  ◌⊎◌, inl, inr, Bool, true, false, not, ◌&&◌, ◌||◌, Option, none, some, List, [], ◌∷◌, ◌++◌, map,
  append_assoc, append-nil, arith, ltb, leb, ◌==◌, if◌then◌else◌, Bool-cases, Option-cases, length,
  get_elem?, take, drop, All, length-append,
}
use xelis_blockchain.Prelude.Results.{Result, ok, err, ◌>>=◌}

-- `Ord` of a hash, as its strict comparison.
pub record Ord (K : Type 0) : Type 0 where
  pub lt : K → K → Bool
  pub lt_irrefl : (a : K) → lt a a ≡ false
  pub lt_trans : (a b c : K) → lt a b ≡ true → lt b c ≡ true → lt a c ≡ true
  pub lt_total : (a b : K) → lt a b ≡ false → lt b a ≡ false → a ≡ b

-- `slice::sort_by` is stable: an element goes in front of the first that does not come before it.
unfoldable pub insert_by : {A : Type 0} → (A → A → Bool) → A → List A → List A
insert_by before x [] = x ∷ []
insert_by before x (y ∷ rest) =
    let others = insert_by before x rest in if before y x then y ∷ others else x ∷ y ∷ rest

unfoldable pub sort_by : {A : Type 0} → (A → A → Bool) → List A → List A
sort_by before [] = []
sort_by before (x ∷ rest) = insert_by before x (sort_by before rest)

pub data BlockchainError (E : Type 0) : Type 0 where
  expected_tips : BlockchainError E
  storage : E → BlockchainError E

module _ {K : Type 0} ⦃o : Ord K⦄ where
  -- The closures of the two sorts: whether the first score comes before the second.
  unfoldable pub descending : K × ℕ → K × ℕ → Bool
  descending (a_hash, a) (b_hash, b) = if not (a == b) then ltb b a else o.lt b_hash a_hash

  unfoldable pub ascending : K × ℕ → K × ℕ → Bool
  ascending (a_hash, a) (b_hash, b) = if not (a == b) then ltb a b else o.lt a_hash b_hash

  unfoldable pub sort_descending_by_cumulative_difficulty : List (K × ℕ) → List (K × ℕ)
  sort_descending_by_cumulative_difficulty scores = sort_by descending scores

  unfoldable pub sort_ascending_by_cumulative_difficulty : List (K × ℕ) → List (K × ℕ)
  sort_ascending_by_cumulative_difficulty scores = sort_by ascending scores

  -- The hashes of the sorted scores.
  unfoldable pub hashes : List (K × ℕ) → List K
  hashes [] = []
  hashes ((hash, score) ∷ rest) = hash ∷ hashes rest

module _ {K E : Type 0} (provider : K → Result E ℕ) where
  ask : K → Result (BlockchainError E) ℕ
  ask hash = elim (provider hash) [ ok n ↦ ok n | err s ↦ err (storage s) ]

  -- `for hash in tips { scores.push((hash, storage.get(..)?)) }`
  unfoldable pub get_scores : List K → Result (BlockchainError E) (List (K × ℕ))
  unfolding ask
  get_scores [] = ok []
  get_scores (hash ∷ rest) = do
    score ← ask hash
    scores ← get_scores rest
    ok ((hash, score) ∷ scores)

  height_loop : List K → ℕ → Result (BlockchainError E) ℕ
  unfolding ask
  height_loop [] height = ok height
  height_loop (hash ∷ rest) height = do
    past_height ← ask hash
    height_loop rest (if leb height past_height then past_height else height)

  -- The height of the tips, plus one where there are tips.
  unfoldable pub calculate_height_at_tips : List K → Result (BlockchainError E) ℕ
  unfolding height_loop
  calculate_height_at_tips tips = do
    height ← height_loop tips 0
    ok (if length tips == 0 then height else (height + 1) % 2 ^ 64)

  -- The loop of `find_best_tip_by_cumulative_difficulty` and of `find_newest_tip_by_timestamp`: the
  -- first of the tips with the highest answer, if that is above the answer at the start.
  highest_loop : List K → ℕ → Option K → Result (BlockchainError E) (Option K × ℕ)
  unfolding ask
  highest_loop [] highest selected = ok (selected, highest)
  highest_loop (hash ∷ rest) highest selected = do
    score ← ask hash
    highest_loop rest (if ltb highest score then score else highest)
        (if ltb highest score then some hash else selected)

  expect : Option K → Result (BlockchainError E) K
  expect none = err expected_tips
  expect (some hash) = ok hash

  unfoldable pub find_best_tip_by_cumulative_difficulty : List K → Result (BlockchainError E) K
  unfolding highest_loop expect
  find_best_tip_by_cumulative_difficulty [] = err expected_tips
  find_best_tip_by_cumulative_difficulty (hash ∷ []) = ok hash
  find_best_tip_by_cumulative_difficulty (a ∷ b ∷ rest) = do
    found ← highest_loop (a ∷ b ∷ rest) 0 none
    expect found.0

  unfoldable pub find_newest_tip_by_timestamp : List K → Result (BlockchainError E) (K × ℕ)
  unfolding highest_loop expect ask
  find_newest_tip_by_timestamp [] = err expected_tips
  find_newest_tip_by_timestamp (hash ∷ []) = do timestamp ← ask hash; ok (hash, timestamp)
  find_newest_tip_by_timestamp (a ∷ b ∷ rest) = do
    found ← highest_loop (a ∷ b ∷ rest) 0 none
    newest_tip ← expect found.0
    ok (newest_tip, found.1)

module _ {K E : Type 0} ⦃o : Ord K⦄ (provider : K → Result E ℕ) where
  -- The tips are distinct, so that the set that is collected has them in the order of the list.
  unfoldable pub sort_tips : List K → Result (BlockchainError E) (List K)
  sort_tips [] = err expected_tips
  sort_tips (hash ∷ []) = ok (hash ∷ [])
  sort_tips (a ∷ b ∷ rest) = do
    scores ← get_scores provider (a ∷ b ∷ rest)
    ok (hashes (sort_descending_by_cumulative_difficulty scores))
