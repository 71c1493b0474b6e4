-- ===== src/BlockDag/Tips.antt =====
-- What the functions on tips promise, where the storage knows each tip.
use xelis_blockchain.Prelude.{
  ℕ, ◌+◌, ◌≤◌, ◌≡◌, refl, sym, ap, ◌∙◌, subst, ◌⊎◌, inl, inr, Option, none, some, List, [], ◌∷◌,
  map, arith, ltb, leb, if◌then◌else◌, Bool-cases, All, ◌%◌, ◌^◌, ◌<◌, false,
}
use mathlib.Core.List.{Permᴰ}
use xelis_blockchain.Prelude.Results.{Result, ok, err}
use xelis_blockchain.BlockDag.{
  Ord, BlockchainError, expected_tips, insert_by, sort_by, descending,
  sort_descending_by_cumulative_difficulty, hashes, ask, get_scores, sort_tips, height_loop,
  calculate_height_at_tips, highest_loop, expect, find_best_tip_by_cumulative_difficulty, false,
}
use xelis_blockchain.BlockDag.Order.{descending-IsOrder}
use xelis_blockchain.BlockDag.Sorting.{
  sort_by_order_free, IsSorted, sort_by-IsSorted, sort_by_shuffles,
}

All_permuted : {A : Type 0} (P : A → Type 0) {xs ys : List A} → Permᴰ xs ys → All P xs → All P ys
All_permuted P Permᴰ.nil h = tt
All_permuted P (Permᴰ.cons p d) (h, hs) = (subst P p h, All_permuted P d hs)
All_permuted P (Permᴰ.swap p q) (h, (k, ks)) = (subst P q k, (subst P p h, ks))
All_permuted P (Permᴰ.trans d d') h = All_permuted P d' (All_permuted P d h)

map_permuted :
    {A B : Type 0} (f : A → B) {xs ys : List A} → Permᴰ xs ys → Permᴰ (map f xs) (map f ys)
map_permuted f Permᴰ.nil = Permᴰ.nil
map_permuted f (Permᴰ.cons p d) = Permᴰ.cons (ap f p) (map_permuted f d)
map_permuted f (Permᴰ.swap p q) = Permᴰ.swap (ap f p) (ap f q)
map_permuted f (Permᴰ.trans d d') = Permᴰ.trans (map_permuted f d) (map_permuted f d')

module _ {K E : Type 0} (provider : K → Result E ℕ) (score : K → ℕ) where
  -- The storage knows the tip, and answers with its score.
  abbrev pub IsKnown : K → Type 0
  IsKnown hash = provider hash ≡ ok (score hash)

  ask-IsKnown : (hash : K) → IsKnown hash → ask provider hash ≡ ok (score hash)
  unfolding ask
  ask-IsKnown hash h = rw (h, ask) refl

  get_scores-IsKnown :
      (tips : List K)
      → All IsKnown tips
      → get_scores provider tips ≡ ok (map (λ t. (t, score t)) tips)
  unfolding get_scores
  get_scores-IsKnown [] h = refl
  get_scores-IsKnown (t ∷ tips) (h, hs) = rw (ask-IsKnown t h, get_scores-IsKnown tips hs) refl

  -- The least number that is at least `from` and the scores of the tips.
  pub record IsLeast (from n : ℕ) (tips : List K) : Type 0 where
    pub from_below : from ≤ n
    pub above : All (λ t. score t ≤ n) tips
    pub least : (m : ℕ) → from ≤ m → All (λ t. score t ≤ m) tips → n ≤ m

  height_loop-IsLeast :
      (tips : List K) (from : ℕ)
      → All IsKnown tips
      → (n : ℕ) × (height_loop provider tips from ≡ ok n) × IsLeast from n tips
  unfolding height_loop
  height_loop-IsLeast [] from h =
      (from, refl, record { from_below = omega arith; above = tt; least = λ m p q. p })
  height_loop-IsLeast (t ∷ tips) from (h, hs) =
      let (n, e, l) = height_loop-IsLeast tips (if leb from (score t) then score t else from) hs in
      (
        n,
        rw (ask-IsKnown t h) e,
        record {
          from_below = ground (arith, l.from_below);
          above = (ground (arith, l.from_below), l.above);
          least = λ m p q. l.least m (ground (arith, p, q.0)) q.1;
        },
      )

  -- The height of a block on known tips is one more, as a u64, than the least number that is at least the height of each of them.
  pub calculate_height_at_tips_lem :
      (tip : K) (tips : List K)
      → All IsKnown (tip ∷ tips)
      → (n : ℕ) × (calculate_height_at_tips provider (tip ∷ tips) ≡ ok ((n + 1) % 2 ^ 64))
        × IsLeast 0 n (tip ∷ tips)
  unfolding calculate_height_at_tips
  calculate_height_at_tips_lem tip tips h =
      let (n, e, l) = height_loop-IsLeast (tip ∷ tips) 0 h in (n, rw e (ground arith), l)

  -- The selected tip has the highest score so far; without one that is 0.
  abbrev IsScore : Option K → ℕ → Type 0
  IsScore none n = n ≡ 0
  IsScore (some k) n = score k ≡ n

  highest_loop_lem :
      (tips : List K) (from : ℕ) (selected : Option K)
      → All IsKnown tips
      → IsScore selected from
      → (n : ℕ) × (found : Option K) × (highest_loop provider tips from selected ≡ ok (found, n))
        × IsScore found n
        × IsLeast from n tips
  unfolding highest_loop
  highest_loop_lem [] from selected h s =
      (from, selected, refl, s, record { from_below = omega arith; above = tt; least = λ m p q. p })
  highest_loop_lem (t ∷ tips) from selected (h, hs) s = elim (Bool-cases (ltb from (score t))) [
    | inl p ↦
        let (n, found, e, f, l) = highest_loop_lem tips (score t) (some t) hs refl in
        (
          n,
          found,
          rw (ask-IsKnown t h, p) e,
          f,
          record {
            from_below = ground (arith, l.from_below, p);
            above = (l.from_below, l.above);
            least = λ m a b. l.least m b.0 b.1;
          },
        )
    | inr p ↦
        let (n, found, e, f, l) = highest_loop_lem tips from selected hs s in
        (
          n,
          found,
          rw (ask-IsKnown t h, p) e,
          f,
          record {
            from_below = l.from_below;
            above = (ground (arith, l.from_below, p), l.above);
            least = λ m a b. l.least m a b.1;
          },
        )
  ]

  -- Of two or more known tips the one that is found has the highest cumulative difficulty; none is found only where all of them are 0.
  pub find_best_tip_by_cumulative_difficulty_lem :
      (a b : K) (rest : List K)
      → All IsKnown (a ∷ b ∷ rest)
      → ((best : K) × (find_best_tip_by_cumulative_difficulty provider (a ∷ b ∷ rest) ≡ ok best)
          × IsLeast 0 (score best) (a ∷ b ∷ rest))
        ⊎ ((find_best_tip_by_cumulative_difficulty provider (a ∷ b ∷ rest) ≡ err expected_tips)
            × IsLeast 0 0 (a ∷ b ∷ rest))
  unfolding find_best_tip_by_cumulative_difficulty expect
  find_best_tip_by_cumulative_difficulty_lem a b rest h =
      conclude (highest_loop_lem (a ∷ b ∷ rest) 0 none h refl)
    where
      conclude :
          (n : ℕ) × (found : Option K) × (highest_loop provider (a ∷ b ∷ rest) 0 none
              ≡ ok (found, n))
            × IsScore found n
            × IsLeast 0 n (a ∷ b ∷ rest)
          → ((best : K) × (find_best_tip_by_cumulative_difficulty provider (a ∷ b ∷ rest) ≡ ok best)
              × IsLeast 0 (score best) (a ∷ b ∷ rest))
            ⊎ ((find_best_tip_by_cumulative_difficulty provider (a ∷ b ∷ rest) ≡ err expected_tips)
                × IsLeast 0 0 (a ∷ b ∷ rest))
      conclude (n, none, e, s, l) = inr (rw e refl, subst (λ m. IsLeast 0 m (a ∷ b ∷ rest)) s l)
      conclude (n, some best, e, s, l) =
          inl (best, rw e refl, subst (λ m. IsLeast 0 m (a ∷ b ∷ rest)) (sym s) l)

module _ {K E : Type 0} ⦃o : Ord K⦄ (provider : K → Result E ℕ) (score : K → ℕ) where
  scores : List K → List (K × ℕ)
  scores tips = map (λ t. (t, score t)) tips

  finish : List (K × ℕ) → Result (BlockchainError E) (List K)
  finish [] = err expected_tips
  finish (s ∷ ss) = ok (hashes (s ∷ ss))

  finish-insert :
      (s : K × ℕ) (ss : List (K × ℕ))
      → finish (insert_by descending s ss) ≡ ok (hashes (insert_by descending s ss))
  unfolding insert_by finish
  finish-insert s [] = refl
  finish-insert s (t ∷ ss) = elim (Bool-cases (descending t s)) [
    | inl p ↦ rw p refl
    | inr p ↦ rw p refl
  ]

  sort_tips-finish :
      (tips : List K)
      → All (IsKnown provider score) tips
      → sort_tips provider tips ≡ finish (sort_by descending (scores tips))
  unfolding sort_tips sort_descending_by_cumulative_difficulty scores finish sort_by hashes
      insert_by
  sort_tips-finish [] h = refl
  sort_tips-finish (a ∷ []) h = refl
  sort_tips-finish (a ∷ b ∷ rest) h =
      rw (get_scores-IsKnown provider score (a ∷ b ∷ rest) h) (sym (finish-insert (a, score a) _))

  -- The order of known tips does not depend on the order in which they are iterated.
  pub sort_tips_order_free :
      (xs ys : List K)
      → Permᴰ xs ys
      → All (IsKnown provider score) xs
      → sort_tips provider xs ≡ sort_tips provider ys
  unfolding scores
  sort_tips_order_free xs ys p h =
      sort_tips-finish xs h
      ∙ ap finish
          (sort_by_order_free descending descending-IsOrder (map_permuted (λ t. (t, score t)) p))
      ∙ sym (sort_tips-finish ys (All_permuted (IsKnown provider score) p h))

module _ {K : Type 0} ⦃o : Ord K⦄ where
  -- The difficulty of `x` is greater, or the same with a hash that is not less.
  abbrev pub IsAhead : K × ℕ → K × ℕ → Type 0
  IsAhead x y = (y.1 < x.1) ⊎ ((y.1 ≡ x.1) × (o.lt x.0 y.0 ≡ false))

  -- Each score is ahead of all behind it.
  abbrev pub IsRanked : List (K × ℕ) → Type 0
  IsRanked [] = Unit {0}
  IsRanked (x ∷ xs) = All (IsAhead x) xs × IsRanked xs

  descending-IsAhead : (x y : K × ℕ) → descending y x ≡ false → IsAhead x y
  unfolding descending
  descending-IsAhead x y h = ground (arith, h)

  all-IsAhead :
      (x : K × ℕ) (ys : List (K × ℕ)) → All (λ y. descending y x ≡ false) ys → All (IsAhead x) ys
  all-IsAhead x [] h = tt
  all-IsAhead x (y ∷ ys) (h, hs) = (descending-IsAhead x y h, all-IsAhead x ys hs)

  IsSorted-IsRanked : (xs : List (K × ℕ)) → IsSorted descending descending-IsOrder xs → IsRanked xs
  unfolding IsSorted
  IsSorted-IsRanked [] h = tt
  IsSorted-IsRanked (x ∷ xs) (h, hs) = (all-IsAhead x xs h, IsSorted-IsRanked xs hs)

  -- The sorted scores are the given ones, from the greatest difficulty to the least, and from the greatest hash to the least where difficulties are equal.
  pub sort_descending-IsRanked :
      (xs : List (K × ℕ))
      → IsRanked (sort_descending_by_cumulative_difficulty xs)
        × Permᴰ xs (sort_descending_by_cumulative_difficulty xs)
  unfolding sort_descending_by_cumulative_difficulty
  sort_descending-IsRanked xs = (
    IsSorted-IsRanked _ (sort_by-IsSorted descending descending-IsOrder xs),
    sort_by_shuffles descending xs,
  )
