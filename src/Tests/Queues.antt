-- ===== src/Tests/Queues.antt =====
-- The queue, the order of tips and the tree of hashes at concrete inputs.
use xelis_blockchain.Prelude.{
  ℕ, ◌+◌, ◌*◌, ◌≡◌, refl, ◌⊎◌, true, false, none, some, List, [], ◌∷◌, ◌++◌, arith, ltb, ◌==◌,
  length, replicate, ◌%◌, ◌^◌,
}
use mathlib.Core.List.{Permᴰ}
use xelis_blockchain.Prelude.Equality.{nat_eq}
use xelis_blockchain.Prelude.Results.{Result, ok, err}
use xelis_blockchain.Queue
use xelis_blockchain.Queue.{Arc, Queue, push, has, get, extract_if}
use xelis_blockchain.Queue.Valid.{IsValid, arcs}
use xelis_blockchain.Queue.Refines.{entries}
use xelis_blockchain.Queue.Calls.{IsImage, extract_if-dropped}
use xelis_blockchain.Queue.Runs.{
  Call, add_last, pop_first, has_key, get_value, extract, run, meaning_all, run-meaning,
  change_value, count_entries, clear_all,
}
use xelis_blockchain.BlockDag.{
  Ord, expected_tips, sort_tips, calculate_height_at_tips, find_best_tip_by_cumulative_difficulty,
  sort_descending_by_cumulative_difficulty,
}
use xelis_blockchain.BlockDag.Tips.{
  IsLeast, IsRanked, sort_tips_order_free, calculate_height_at_tips_lem,
  find_best_tip_by_cumulative_difficulty_lem, sort_descending-IsRanked,
}
use xelis_blockchain.Merkle.{build, build_loop, pair_up, remove_first}
use xelis_blockchain.Merkle.Build.{build-root, build-duplicate}
use xelis_blockchain.Merkle.Binding.{Collision, build-binds}

abbrev empty_queue : Queue ℕ ℕ
empty_queue = record { keys = []; order = []; next_address = 0 }

empty-IsValid : IsValid empty_queue
unfolding arcs
empty-IsValid = record { synced = refl; apart = tt; fresh = tt }

abbrev some_calls : List (Call ℕ ℕ)
some_calls =
    add_last 3 30
    ∷ add_last 4 40
    ∷ add_last 3 31
    ∷ change_value 4 (λ v. v + 2)
    ∷ get_value 4
    ∷ count_entries
    ∷ extract (λ k v. v == 30)
    ∷ has_key 3
    ∷ pop_first
    ∷ clear_all
    ∷ []

run-meaning_example :
    IsImage (run some_calls empty_queue) (meaning_all some_calls (entries empty_queue.order))
run-meaning_example = run-meaning some_calls empty_queue empty-IsValid

abbrev first_key : Arc ℕ
first_key = record { address = 0; value = 3 }

abbrev one_entry : Queue ℕ ℕ
one_entry = record { keys = first_key ∷ []; order = (first_key, 30) ∷ []; next_address = 1 }

one_entry-has : has 3 one_entry ≡ true
unfolding has Queue.find_key
one_entry-has = refl

extract_if-dropped_example :
    let q' = (extract_if (λ k v. true) 0 one_entry).0 in
    (has 3 q' ≡ true) × (get 3 q' ≡ none) × ((push 3 7 q').1 ≡ false)
extract_if-dropped_example = extract_if-dropped (λ k v. true) 3 7 one_entry one_entry-has

ltb_irrefl : (a : ℕ) → ltb a a ≡ false
ltb_irrefl a = ground arith

ltb_trans : (a b c : ℕ) → ltb a b ≡ true → ltb b c ≡ true → ltb a c ≡ true
ltb_trans a b c h k = ground (arith, h, k)

ltb_total : (a b : ℕ) → ltb a b ≡ false → ltb b a ≡ false → a ≡ b
ltb_total a b h k = ground (arith, h, k)

instance abbrev nat_ord : Ord ℕ
nat_ord = record { lt = ltb; lt_irrefl = ltb_irrefl; lt_trans = ltb_trans; lt_total = ltb_total }

-- A hash is a number here, and its score ten times that.
abbrev tens : ℕ → Result ℕ ℕ
tens n = ok (n * 10)

abbrev three_scores : List (ℕ × ℕ)
three_scores = (7, 5) ∷ (9, 4) ∷ (8, 5) ∷ []

sort_tips_order_free_example : sort_tips tens (1 ∷ 2 ∷ 3 ∷ []) ≡ sort_tips tens (2 ∷ 1 ∷ 3 ∷ [])
sort_tips_order_free_example =
    sort_tips_order_free tens (λ n. n * 10) (1 ∷ 2 ∷ 3 ∷ []) (2 ∷ 1 ∷ 3 ∷ []) (Permᴰ.swap refl refl)
      (refl, (refl, (refl, tt)))

calculate_height_at_tips_lem_example :
    (n : ℕ) × (calculate_height_at_tips tens (4 ∷ 7 ∷ []) ≡ ok ((n + 1) % 2 ^ 64))
    × IsLeast tens (λ n. n * 10) 0 n (4 ∷ 7 ∷ [])
calculate_height_at_tips_lem_example =
    calculate_height_at_tips_lem tens (λ n. n * 10) 4 (7 ∷ []) (refl, (refl, tt))

find_best_tip_by_cumulative_difficulty_lem_example :
    ((best : ℕ) × (find_best_tip_by_cumulative_difficulty tens (4 ∷ 7 ∷ []) ≡ ok best)
      × IsLeast tens (λ n. n * 10) 0 (best * 10) (4 ∷ 7 ∷ []))
    ⊎ ((find_best_tip_by_cumulative_difficulty tens (4 ∷ 7 ∷ []) ≡ err expected_tips)
        × IsLeast tens (λ n. n * 10) 0 0 (4 ∷ 7 ∷ []))
find_best_tip_by_cumulative_difficulty_lem_example =
    find_best_tip_by_cumulative_difficulty_lem tens (λ n. n * 10) 4 7 [] (refl, (refl, tt))

abbrev count : List ℕ → List ℕ
count bytes = replicate 32 (length bytes)

abbrev ones : List (List ℕ)
ones = replicate 32 1 ∷ replicate 32 1 ∷ []

abbrev twos : List (List ℕ)
twos = replicate 32 2 ∷ replicate 32 3 ∷ []

build-root_example :
    (root : List ℕ) × (build_loop count 2 ones ≡ root ∷ [])
    × (build count (record { hashes = ones }) ≡ (record { hashes = [] }, some root))
build-root_example = build-root count (record { hashes = ones }) (omega arith)

build-duplicate_example :
    build count (record { hashes = ones ++ replicate 32 5 ∷ [] })
    ≡ build count (record { hashes = ones ++ replicate 32 5 ∷ replicate 32 5 ∷ [] })
build-duplicate_example = build-duplicate count 0 ones (replicate 32 5) refl

same_root : (build count (record { hashes = ones })).1 ≡ (build count (record { hashes = twos })).1
unfolding build build_loop pair_up remove_first
same_root = refl

build-binds_example : (ones ≡ twos) ⊎ Collision count
build-binds_example =
    build-binds count (λ bytes. refl) (record { hashes = ones }) (record { hashes = twos }) refl
      (omega arith) (refl, (refl, tt)) (refl, (refl, tt)) same_root

sort_descending-IsRanked_example :
    IsRanked (sort_descending_by_cumulative_difficulty three_scores)
    × Permᴰ three_scores (sort_descending_by_cumulative_difficulty three_scores)
sort_descending-IsRanked_example = sort_descending-IsRanked three_scores
