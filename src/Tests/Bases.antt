-- ===== src/Tests/Bases.antt =====
-- The tip bases of a small DAG.
use xelis_blockchain.Prelude.{
  ℕ, ◌*◌, ◌≤◌, ◌<◌, ◌≡◌, refl, ap, subst, ◌↔◌, inl, inr, Bool, true, false, ◌&&◌, none, some, List,
  [], ◌∷◌, arith, leb, ◌==◌, if◌then◌else◌, Bool-cases, length, ==_iff, ◌-◌, ◌⊎◌,
}
use xelis_blockchain.Prelude.Equality.{Eq, nat_eq}
use xelis_blockchain.Prelude.Results.{ok, ok_injective}
use xelis_blockchain.Dag.{Provider, is_sync_block_at_height}
use xelis_blockchain.Dag.Compare.{In}
use xelis_blockchain.Dag.Weight.{weight}
use xelis_blockchain.Dag.FullOrder.{LruCache}
use xelis_blockchain.Dag.TipBase.{Base, pruned_height, find_tip_base, find_common_base, highest}
use xelis_blockchain.Dag.TipBase.Visit.{IsTipBase}
use xelis_blockchain.Dag.TipBase.Loop.{IsSound}
use xelis_blockchain.Dag.TipBase.Known.{IsKnown}
use xelis_blockchain.Dag.TipBase.Fuel.{IsBounded, find_tip_base_returns}
use xelis_blockchain.Dag.TipBase.Common.{IsCommonBase}
use xelis_blockchain.Dag.TipBase.Complete.{find_common_base_returns}
use xelis_blockchain.Dag.{extend}
use xelis_blockchain.Dag.Reachability.{
  verify_non_reachability, build_reachability, reach_all, push_unknown, covered, any_covered,
}
use xelis_blockchain.Dag.Reachability.Verdict.{Verdict}
use xelis_blockchain.Dag.Reachability.Fuel.{verify_non_reachability_returns}
use xelis_blockchain.Dag.Distance.{calculate_distance_from_mainchain}
use xelis_blockchain.Dag.Distance.Answer
use xelis_blockchain.Dag.Distance.Answer.{calculate_distance-IsLowest}
use xelis_blockchain.Tests.Ordering.{list_cache, find}

-- 1 and 2 stand on 0, the first block.
abbrev past : ℕ → List ℕ
past n = if n == 0 then [] else 0 ∷ []

abbrev level : ℕ → ℕ
level n = if n == 0 then 0 else 1

abbrev fork : Provider ℕ ℕ
fork = record {
  get_height_for_block_hash = λ n. ok (level n);
  get_timestamp_for_block_hash = λ n. ok n;
  get_difficulty_for_block_hash = λ n. ok 10;
  get_cumulative_difficulty_for_block_hash = λ n. ok (n * 10);
  get_past_blocks_for_block_hash = λ n. ok (past n);
  get_estimated_covariance_for_block_hash = λ n. ok 1;
  is_block_topological_ordered = λ n. leb n 1;
  get_topo_height_for_hash = λ n. ok n;
  get_hash_at_topo_height = λ n. ok n;
  get_blocks_at_height = λ n. ok (if n == 0 then 0 ∷ [] else if n == 1 then 1 ∷ 2 ∷ [] else []);
  get_pruned_topoheight = ok none;
}

key_same : (x y : ℕ × ℕ) → ((x.0 == y.0 && x.1 == y.1) ≡ true) ↔ (x ≡ y)
key_same x y = (
  λ h. λ i. ((==_iff x.0 y.0).0 (ground (arith, h)) i, (==_iff x.1 y.1).0 (ground (arith, h)) i),
  λ q. ground (arith, (==_iff x.0 y.0).1 (ap (λ t. t.0) q), (==_iff x.1 y.1).1 (ap (λ t. t.1) q)),
)

abbrev key_eq : Eq (ℕ × ℕ)
key_eq = record { beq = λ x y. x.0 == y.0 && x.1 == y.1; beq_iff = key_same }

abbrev base_cache : LruCache (List ((ℕ × ℕ) × Base ℕ)) (ℕ × ℕ) (Base ℕ)
base_cache = list_cache {V = Base ℕ} key_eq

empty_cache-IsSound : IsSound fork base_cache 1 0 []
unfolding find
empty_cache-IsSound x b h = cc h

sync_answers : (x : ℕ) → (b : Bool) × (is_sync_block_at_height fork x 1 ≡ ok b)
unfolding is_sync_block_at_height
sync_answers x = elim (Bool-cases (x == 0)) [
  | inl q ↦ (true, rw (q, is_sync_block_at_height) refl)
  | inr q ↦ (false, rw (q, is_sync_block_at_height) refl)
]

all_known : (x : ℕ) → IsKnown fork 1 0 x
unfolding pruned_height
all_known x = record {
  past = (_, refl);
  pruned = (_, refl);
  sync = sync_answers x;
  high = (_, refl);
}

past_below : (x t : ℕ) → In (past x) t → t < x
past_below x t m = ground (arith, m)

few_tips : (x : ℕ) → length (past x) ≤ 1
few_tips x = ground arith

bounded : (hash : ℕ) → IsBounded fork 1 0 (λ x. x) 1 hash
bounded hash = record {
  known = λ x a. all_known x;
  few = λ x tips a q. subst (λ l. length l ≤ 1) (ok_injective refl q) (few_tips x);
  rising = λ x t tips a q m. past_below x t (subst (λ l. In l t) (ok_injective q refl) m);
}

enough : (weight 1 1 ≤ 4) × (weight 1 2 ≤ 4)
unfolding weight
enough = (omega arith, omega arith)

find_tip_base_returns_example :
    (b : Base ℕ) × (c' : List ((ℕ × ℕ) × Base ℕ)) × (find_tip_base fork base_cache 1 0 4 [] 2
      ≡ some (ok (b, c')))
    × IsTipBase fork 1 0 2 b
    × IsSound fork base_cache 1 0 c'
find_tip_base_returns_example =
    find_tip_base_returns fork base_cache 1 0 2 (λ x. x) 1 (bounded 2) 4 [] empty_cache-IsSound
      enough.1

two-IsBounded : (t : ℕ) → In (1 ∷ 2 ∷ []) t → IsBounded fork 1 0 (λ x. x) 1 t × (weight 1 t ≤ 4)
two-IsBounded t m = elim (Bool-cases (1 == t)) [
  | inl q ↦ (bounded t, subst (λ n. weight 1 n ≤ 4) ((==_iff 1 t).0 q) enough.0)
  | inr q ↦
      (bounded t, subst (λ n. weight 1 n ≤ 4) ((==_iff 2 t).0 (ground (arith, m, q))) enough.1)
]

best : highest fork base_cache (1 ∷ 2 ∷ []) 0 ≡ ok 1
unfolding highest
best = refl

find_common_base_returns_example :
    (b : Base ℕ) × (c' : List ((ℕ × ℕ) × Base ℕ)) × (find_common_base fork base_cache 4 []
        (1 ∷ 2 ∷ [])
      ≡ some (ok (b, c')))
    × IsCommonBase fork base_cache (1 ∷ 2 ∷ []) b c'
find_common_base_returns_example =
    find_common_base_returns fork base_cache 1 none (λ x. x) 1 4 [] (1 ∷ 2 ∷ []) (omega arith) best
      refl two-IsBounded empty_cache-IsSound

short_ways : weight 1 16 ≤ 17
unfolding weight
short_ways = omega arith

verify_non_reachability_returns_example :
    (b : Bool) × (verify_non_reachability fork 17 (1 ∷ 2 ∷ []) ≡ some (ok b))
    × Verdict fork (1 ∷ 2 ∷ []) b
verify_non_reachability_returns_example =
    verify_non_reachability_returns fork 1 (λ x. (past x, refl, few_tips x)) 17 (1 ∷ 2 ∷ [])
      short_ways

-- 100 stands on 49 and 50, a block on the one before it, and 50 on 34. The way by 49 ends at 34, whose
-- tips are then left out, though 33 is three steps from 100 by 50.
abbrev far_past : ℕ → List ℕ
far_past n = if n == 100 then 50 ∷ 49 ∷ [] else if n == 50 then 34 ∷ [] else (n - 1) ∷ []

abbrev long_way : Provider ℕ ℕ
long_way = record fork { get_past_blocks_for_block_hash = λ n. ok (far_past n) }

ancestor_accepted : verify_non_reachability long_way 60 (33 ∷ 100 ∷ []) ≡ some (ok true)
unfolding verify_non_reachability build_reachability reach_all push_unknown covered any_covered
    extend
ancestor_accepted = refl

branch-IsBounded : Answer.IsBounded fork 2 (λ x. x) 1
branch-IsBounded = record {
  past = λ y b. (past y, refl);
  few = λ y tips b q. subst (λ l. length l ≤ 1) (ok_injective refl q) (few_tips y);
  rising = λ y t tips b q m. past_below y t (subst (λ l. In l t) (ok_injective q refl) m);
  heights = λ t o. (level t, refl);
}

calculate_distance-IsLowest_example :
    (n : ℕ) × (calculate_distance_from_mainchain fork 4 2 ≡ some (ok n))
    × ((leb 2 1 ≡ true) × (fork.get_height_for_block_hash 2 ≡ ok n)
        ⊎ (leb 2 1 ≡ false) × Answer.IsLowest fork 2 n)
calculate_distance-IsLowest_example =
    calculate_distance-IsLowest fork 2 (λ x. x) 1 branch-IsBounded 4 enough.1
