-- ===== src/Dag/Compare.antt =====
-- What the three loops of `is_sync_block_at_height` find.
use xelis_blockchain.Prelude.{
  ℕ, zero, suc, ◌+◌, ◌≤◌, ◌<◌, ◌≡◌, refl, ap, ◌∙◌, subst, ◌⊎◌, inl, inr, Bool, true, false, ◌||◌,
  List, [], ◌∷◌, ◌++◌, arith, leb, ◌==◌, if◌then◌else◌, Bool-cases, ==_iff,
}
use xelis_blockchain.Prelude.Results.{ok, err, ◌>>=◌, >>=-eq-ok}
use xelis_blockchain.Prelude.Equality.{Eq, contains, contains-append}
use xelis_blockchain.Dag.{Provider, Ask, extend, several_ordered, collect_blocks, is_heaviest}

module _ {K : Type 0} ⦃e : Eq K⦄ where
  abbrev pub In : List K → K → Type 0
  In xs x = contains x xs ≡ true

  pub contains-extend :
      (x : K) (set xs : List K) → contains x (extend set xs) ≡ (contains x set || contains x xs)
  unfolding extend
  contains-extend x set [] = ground arith
  contains-extend x set (y ∷ xs) = elim (Bool-cases (contains y set)) [
    | inl p ↦ rw p (contains-extend x set xs ∙ known p)
    | inr p ↦
        rw p (contains-extend x (set ++ y ∷ []) xs ∙ ground (arith, contains-append x set (y ∷ [])))
  ]
    where
      known :
          contains y set ≡ true
          → (contains x set || contains x xs) ≡ (contains x set || (e.beq y x || contains x xs))
      known p = elim (Bool-cases (e.beq y x)) [
        | inl q ↦ ground (arith, ap (λ t. contains t set) ((e.beq_iff y x).0 q))
        | inr q ↦ rw q refl
      ]

module _ {K E : Type 0} (p : Provider K E) where
  -- The number of ordered blocks.
  pub count_ordered : List K → ℕ
  count_ordered [] = 0
  count_ordered (hash ∷ rest) =
      (if p.is_block_topological_ordered hash then 1 else 0) + count_ordered rest

  pub several-count :
      (bs : List K) (n : ℕ) → n ≤ 1 → several_ordered p bs n ≡ false → n + count_ordered bs ≤ 1
  unfolding several_ordered count_ordered
  several-count [] n l h = omega (arith, l)
  several-count (b ∷ bs) n l h = ground (arith, several-count bs n, several-count bs (n + 1))

  -- Each ordered block has a smaller cumulative difficulty.
  abbrev pub IsLighter : ℕ → K → Type 0
  IsLighter d b =
      p.is_block_topological_ordered b ≡ true
      → (past : ℕ) × (p.get_cumulative_difficulty_for_block_hash b ≡ ok past) × (past < d)

  heavy_rest :
      (d past : ℕ) (rest : Ask E Bool)
      → elim (leb d past) [ true ↦ ok false | false ↦ rest ] ≡ ok true
      → (past < d) × (rest ≡ ok true)
  heavy_rest d past rest h = ground (arith, h)

  heavy_step :
      (d : ℕ) (ordered : Bool) (past : Ask E ℕ) (rest : Ask E Bool)
      → elim ordered [
        | true ↦ past >>= λ v. elim (leb d v) [ true ↦ ok false | false ↦ rest ]
        | false ↦ rest
      ]
        ≡ ok true
      → (ordered ≡ true → (v : ℕ) × (past ≡ ok v) × (v < d)) × (rest ≡ ok true)
  heavy_step d true (ok v) rest h =
      (λ _. (v, refl, (heavy_rest d v rest h).0), (heavy_rest d v rest h).1)
  heavy_step d true (err x) rest h = cc h
  heavy_step d false past rest h = (λ b. cc b, h)

  pub heaviest_lem :
      ⦃e : Eq K⦄ (d : ℕ) (bs : List K)
      → is_heaviest p d bs ≡ ok true
      → (b : K) → In bs b
      → IsLighter d b
  unfolding is_heaviest
  heaviest_lem d [] h b m = cc m
  heaviest_lem ⦃e⦄ d (x ∷ bs) h b m =
      let (here, there) =
        heavy_step d (p.is_block_topological_ordered x)
          (p.get_cumulative_difficulty_for_block_hash x) (is_heaviest p d bs) h in
      elim (Bool-cases (e.beq x b)) [
        | inl q ↦ subst (IsLighter d) ((e.beq_iff x b).0 q) here
        | inr q ↦ heaviest_lem d bs there b (ground (arith, m, q))
      ]

  collect_step :
      (keep : Bool) (acc all : List K) (blocks : Ask E (List K)) (next : List K → Ask E (List K))
      → elim keep [ true ↦ blocks >>= next | false ↦ ok acc ] ≡ ok all
      → ((keep ≡ true) × ((bs : List K) × (blocks ≡ ok bs) × (next bs ≡ ok all)))
        ⊎ ((keep ≡ false) × (acc ≡ all))
  collect_step true acc all blocks next h = inl (refl, >>=-eq-ok blocks next h)
  collect_step false acc all blocks next h = inr (refl, cc h)

  -- The blocks of the heights from `low` to `i`, and those of `acc`, are in `all`.
  abbrev pub IsCollected : ⦃e : Eq K⦄ → ℕ → ℕ → List K → List K → Type 0
  IsCollected low i acc all =
      ((b : K) → In acc b → In all b)
      × ((h : ℕ)
          → 0 < h
          → low ≤ h
          → h ≤ i
          → (bs : List K) × (p.get_blocks_at_height h ≡ ok bs) × ((b : K) → In bs b → In all b))

  IsCollected-more :
      ⦃e : Eq K⦄ (low i : ℕ) (acc all bs : List K)
      → p.get_blocks_at_height (suc i) ≡ ok bs
      → IsCollected low i (extend acc bs) all
      → IsCollected low (suc i) acc all
  IsCollected-more low i acc all bs q (kept, below) = (
    (λ b m. kept b (ground (arith, contains-extend b acc bs, m))),
    λ h pos l u. elim (Bool-cases (h == suc i)) [
      | inl k ↦ (
        bs,
        ap (λ n. p.get_blocks_at_height n) ((==_iff h (suc i)).0 k) ∙ q,
        λ b m. kept b (ground (arith, contains-extend b acc bs, m)),
      )
      | inr k ↦ below h pos l (ground (arith, u, k))
    ],
  )

  pub collected :
      ⦃e : Eq K⦄ (low i : ℕ) (acc all : List K)
      → collect_blocks p low i acc ≡ ok all
      → IsCollected low i acc all
  unfolding collect_blocks
  collected low zero acc all h =
      (λ b m. subst (λ l. In l b) (cc h) m, λ n pos l u. ground (arith, pos, u))
  collected low (suc i) acc all h =
      elim (collect_step (leb low (suc i)) acc all (p.get_blocks_at_height (suc i))
        (λ bs. collect_blocks p low i (extend acc bs)) h) [
          | inl (k, found) ↦
              let (bs, q, r) = found in
              IsCollected-more low i acc all bs q (collected low i (extend acc bs) all r)
          | inr (k, q) ↦ (λ b m. subst (λ l. In l b) q m, λ n pos l u. ground (arith, k, l, u))
        ]
