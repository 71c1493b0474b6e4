-- ===== src/Tests/Ordering.antt =====
-- A small DAG, with its sync and side blocks and the full order of a block.
use xelis_blockchain.Prelude.{
  ℕ, ◌*◌, ◌≤◌, ◌<◌, ◌≡◌, refl, ap, subst, ◌≢◌, ◌↔◌, ◌⊎◌, inl, inr, true, false, ◌&&◌, Option, none,
  some, List, [], ◌∷◌, arith, ltb, leb, ◌==◌, if◌then◌else◌, Bool-cases, length, ==_iff, ◌-◌,
}
use xelis_blockchain.Prelude.Equality.{Eq, nat_eq, IsDistinct}
use xelis_blockchain.Prelude.Results.{ok, ok_injective, some_injective}
use xelis_blockchain.BlockDag.{
  Ord, hashes, sort_ascending_by_cumulative_difficulty, sort_by, insert_by, ascending,
}
use xelis_blockchain.Dag.{Provider, extend, is_sync_block_at_height, is_side_block_internal}
use xelis_blockchain.Dag.Compare.{In}
use xelis_blockchain.Dag.Sync.{SyncAnswer, is_sync_block-SyncAnswer}
use xelis_blockchain.Dag.Side.{SideAnswer, is_side_block-SideAnswer}
use xelis_blockchain.Dag.FullOrder.{
  LruCache, CacheKey, generate_full_order, is_considered, considered_scores, push_all,
}
use xelis_blockchain.Dag.FullOrder.Step.{IsDep, Reaches, self, along}
use xelis_blockchain.Dag.FullOrder.Known.{IsKnown}
use xelis_blockchain.Dag.FullOrder.Loop.{IsFullOrder, IsSound}
use xelis_blockchain.Dag.FullOrder.Ends.{generate_full_order-IsFullOrder}
use xelis_blockchain.Dag.FullOrder.Fuel.{IsBounded, generate_full_order_returns}

ltb_irrefl : (a : ℕ) → ltb a a ≡ false
ltb_irrefl a = ground arith

ltb_trans : (a b c : ℕ) → ltb a b ≡ true → ltb b c ≡ true → ltb a c ≡ true
ltb_trans a b c h k = ground (arith, h, k)

ltb_total : (a b : ℕ) → ltb a b ≡ false → ltb b a ≡ false → a ≡ b
ltb_total a b h k = ground (arith, h, k)

instance abbrev number_ord : Ord ℕ
number_ord = record { lt = ltb; lt_irrefl = ltb_irrefl; lt_trans = ltb_trans; lt_total = ltb_total }

module _ {Key V : Type 0} (k : Eq Key) where
  unfoldable pub find : Key → List (Key × V) → Option V
  find key [] = none
  find key ((other, value) ∷ rest) = elim (k.beq other key) [
    | true ↦ some value
    | false ↦ find key rest
  ]

  pub find_adds :
      (c : List (Key × V)) (a b : Key) (w v : V)
      → find b ((a, w) ∷ c) ≡ some v
      → ((a ≡ b) × (w ≡ v)) ⊎ ((a ≢ b) × (find b c ≡ some v))
  unfolding find
  find_adds c a b w v h = elim (Bool-cases (k.beq a b)) [
    | inl q ↦ inl ((k.beq_iff a b).0 q, some_injective (rw (q, find) at h))
    | inr q ↦ inr (λ f. cc (q, (k.beq_iff a b).1 f), rw (q, find) at h)
  ]

  -- A cache that forgets nothing.
  abbrev pub list_cache : LruCache (List (Key × V)) Key V
  list_cache = record {
    get = λ c key. (c, find key c);
    put = λ c key value. (key, value) ∷ c;
    get_keeps = λ c a b v h. h;
    put_adds = find_adds;
  }

pub key_same : (x y : CacheKey ℕ) → ((x.0 == y.0 && (x.1 == y.1 && x.2 == y.2)) ≡ true) ↔ (x ≡ y)
key_same x y = (
  λ h. λ i. (
    (==_iff x.0 y.0).0 (ground (arith, h)) i,
    (==_iff x.1 y.1).0 (ground (arith, h)) i,
    (==_iff x.2 y.2).0 (ground (arith, h)) i,
  ),
  λ q. ground (
    arith,
    (==_iff x.0 y.0).1 (ap (λ t. t.0) q),
    (==_iff x.1 y.1).1 (ap (λ t. t.1) q),
    (==_iff x.2 y.2).1 (ap (λ t. t.2) q),
  ),
)

abbrev key_eq : Eq (CacheKey ℕ)
key_eq = record { beq = λ x y. x.0 == y.0 && (x.1 == y.1 && x.2 == y.2); beq_iff = key_same }

-- 1 and 2 stand on 0, and 3 on both of them. 0 and 1 are ordered.
abbrev past : ℕ → List ℕ
past n = if n == 0 then [] else if n == 3 then 1 ∷ 2 ∷ [] else 0 ∷ []

abbrev levels : ℕ → ℕ
levels n = if n == 0 then 0 else if n == 3 then 2 else 1

abbrev pub diamond : Provider ℕ ℕ
diamond = record {
  get_height_for_block_hash = λ n. ok (levels n);
  get_timestamp_for_block_hash = λ n. ok n;
  get_difficulty_for_block_hash = λ n. ok 10;
  get_cumulative_difficulty_for_block_hash = λ n. ok (n * 10);
  get_past_blocks_for_block_hash = λ n. ok (past n);
  get_estimated_covariance_for_block_hash = λ n. ok 1;
  is_block_topological_ordered = λ n. leb n 1;
  get_topo_height_for_hash = λ n. ok n;
  get_hash_at_topo_height = λ n. ok n;
  get_blocks_at_height = λ n. ok (if n == 0 then 0 ∷ [] else if n == 1 then 1 ∷ 2 ∷ [] else 3 ∷ []);
  get_pruned_topoheight = ok none;
}

-- A chain in which the block of each height is its number, and all are ordered.
abbrev chain : Provider ℕ ℕ
chain = record diamond {
  get_height_for_block_hash = λ n. ok n;
  get_past_blocks_for_block_hash = λ n. ok ((n - 1) ∷ []);
  is_block_topological_ordered = λ n. true;
  get_blocks_at_height = λ n. ok (n ∷ []);
}

nine-passes : is_sync_block_at_height chain 9 17 ≡ ok true
unfolding is_sync_block_at_height extend
nine-passes = refl

nine-main : is_side_block_internal chain 9 20 ≡ ok false
unfolding is_side_block_internal
nine-main = refl

is_sync_block-SyncAnswer_example :
    (b : ℕ) × (chain.get_height_for_block_hash 9 ≡ ok b) × SyncAnswer chain 9 17 b
is_sync_block-SyncAnswer_example = is_sync_block-SyncAnswer chain 9 17 nine-passes

is_side_block-SideAnswer_example : SideAnswer chain 9 20 false
is_side_block-SideAnswer_example = is_side_block-SideAnswer chain 9 20 false nine-main

abbrev pub order_cache : LruCache (List (CacheKey ℕ × List ℕ)) (CacheKey ℕ) (List ℕ)
order_cache = list_cache {V = List ℕ} key_eq

empty_cache-IsSound : IsSound diamond order_cache 0 0 0 []
unfolding find
empty_cache-IsSound x order h = cc h

past_below : (x t : ℕ) → x ≢ 0 → In (past x) t → t < x
past_below x t n m = ground (arith, n, m)

rising : (x t : ℕ) → IsDep diamond 0 0 x t → t < x
rising x t d =
    past_below x t (λ q. cc (d.above, (==_iff x 0).1 q))
      (subst (λ l. In l t) (ok_injective d.known refl) d.inside)

unordered_or_above : (t : ℕ) → is_considered diamond 0 t ≡ ok true
unfolding is_considered
unordered_or_above t = elim (Bool-cases (leb t 1)) [
  | inl q ↦ rw (q, is_considered) (ap ok (ground arith))
  | inr q ↦ rw (q, is_considered) refl
]

three-ordered :
    generate_full_order diamond order_cache 0 0 0 10 [] 3
    ≡ some (ok (0 ∷ 2 ∷ 1 ∷ 3 ∷ [], ((3, 0, 0), 0 ∷ 2 ∷ 1 ∷ 3 ∷ []) ∷ ((0, 0, 0), 0 ∷ []) ∷ []))
unfolding generate_full_order find considered_scores is_considered push_all hashes
    sort_ascending_by_cumulative_difficulty sort_by insert_by ascending extend
three-ordered = refl

generate_full_order-IsFullOrder_example :
    IsFullOrder diamond order_cache 0 0 0 3 (0 ∷ 2 ∷ 1 ∷ 3 ∷ [])
    × IsDistinct {A = ℕ} (0 ∷ 2 ∷ 1 ∷ 3 ∷ [])
    × IsSound diamond order_cache 0 0 0 (((3, 0, 0), 0 ∷ 2 ∷ 1 ∷ 3 ∷ []) ∷ ((0, 0, 0), 0 ∷ []) ∷ [])
generate_full_order-IsFullOrder_example =
    generate_full_order-IsFullOrder diamond order_cache 0 0 0 (λ x. x) 3 rising 10 [] _
      (0 ∷ 2 ∷ 1 ∷ 3 ∷ []) empty_cache-IsSound three-ordered

reached : (x : ℕ) → Reaches diamond 0 0 3 x → x ≤ 3
reached x self = omega arith
reached x (along {y = y} r d) = omega (arith, reached y r, rising y x d)

all_known : (x : ℕ) → IsKnown diamond 0 x
all_known x = record {
  tips = past x;
  past = refl;
  scorable = λ t m. record {
    taken = true;
    considered = unordered_or_above t;
    cumulative = t * 10;
    difficulty = refl;
  };
}

few_tips : (x : ℕ) → length (past x) ≤ 2
few_tips x = ground arith

listed : (x : ℕ) → x ≤ 3 → In (0 ∷ 1 ∷ 2 ∷ 3 ∷ []) x
listed x l = ground (arith, l)

bounded : IsBounded diamond order_cache 0 0 0 3 (0 ∷ 1 ∷ 2 ∷ 3 ∷ []) 2
bounded = record {
  listed = λ x r. listed x (reached x r);
  known = λ x r. all_known x;
  few = λ x tips r q. subst (λ l. length l ≤ 2) (ok_injective refl q) (few_tips x);
}

generate_full_order_returns_example :
    (order : List ℕ) × (c' : List (CacheKey ℕ × List ℕ)) × (generate_full_order diamond order_cache
        0 0 0 14 [] 3
      ≡ some (ok (order, c')))
    × IsFullOrder diamond order_cache 0 0 0 3 order
    × IsDistinct order
generate_full_order_returns_example =
    generate_full_order_returns diamond order_cache 0 0 0 3 (λ x. x) rising (0 ∷ 1 ∷ 2 ∷ 3 ∷ []) 2
      bounded 14 [] empty_cache-IsSound (omega arith)
