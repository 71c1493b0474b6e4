-- ===== src/Dag/TipBase/Common.antt =====
-- The common base of several tips.
use xelis_blockchain.Prelude.{
  ℕ, ◌≤◌, ◌≡◌, refl, sym, ap, ◌∙◌, subst, inl, inr, Option, none, some, List, [], ◌∷◌, ◌++◌,
  append_assoc, append-nil, arith, ltb, if◌then◌else◌, Bool-cases, All,
}
use xelis_blockchain.Prelude.Results.{ok, err, >>=-eq-ok, ok_injective, some_injective}
use xelis_blockchain.Prelude.Equality.{Eq, beq_refl}
use xelis_blockchain.Dag.{Provider, Ask}
use xelis_blockchain.Dag.Compare.{In}
use xelis_blockchain.Dag.FullOrder.{LruCache}
use xelis_blockchain.Dag.TipBase.{
  Base, Cached, find_tip_base, sort_bases, last, collect_bases, highest, unwrap_or_zero,
  take_lowest, answer_lowest, from_best_height, find_common_base,
}
use xelis_blockchain.Dag.TipBase.Lowest.{last-sort_bases}
use xelis_blockchain.Dag.TipBase.Visit.{IsTipBase}
use xelis_blockchain.Dag.TipBase.Loop.{IsSound}
use xelis_blockchain.Dag.TipBase.Ends.{find_tip_base-IsTipBase}

module _ {C K E : Type 0} ⦃e : Eq K⦄ (p : Provider K E) (lru : LruCache C (K × ℕ) (Base K)) where
  module _ (height pruned_topoheight : ℕ) where
    -- A tip base for each tip.
    abbrev pub AreTipBases : List K → List (Base K) → Type 0
    AreTipBases [] [] = Unit {0}
    AreTipBases (t ∷ tips) (b ∷ bs) = IsTipBase p height pruned_topoheight t b × AreTipBases tips bs
    AreTipBases [] (b ∷ bs) = ⊥
    AreTipBases (t ∷ tips) [] = ⊥

    -- A base of one of the tips.
    abbrev pub IsBaseOfOne : List K → Base K → Type 0
    IsBaseOfOne tips b = (t : K) × In tips t × IsTipBase p height pruned_topoheight t b

    each_base :
        (tips : List K) (bs : List (Base K)) (all : List K)
        → ((t : K) → In tips t → In all t)
        → AreTipBases tips bs
        → All (IsBaseOfOne all) bs
    each_base [] [] all i h = tt
    each_base [] (b ∷ bs) all i h = elim h [ ]
    each_base (t ∷ tips) [] all i h = elim h [ ]
    each_base (t ∷ tips) (b ∷ bs) all i (h, hs) = (
      (t, i t (ground (arith, beq_refl e t)), h),
      each_base tips bs all (λ x m. i x (ground (arith, m))) hs,
    )

    collect_round :
        (found : Option (Cached C E (Base K × C))) (fuel : ℕ) (rest : List K)
        (acc all : List (Base K)) (c' : C)
        → elim found [
          | none ↦ none
          | some answer ↦ elim answer [
            | err failure ↦ some (err failure)
            | ok a ↦ collect_bases p lru height pruned_topoheight fuel a.1 rest (acc ++ a.0 ∷ [])
          ]
        ]
          ≡ some (ok (all, c'))
        → (b : Base K) × (c : C) × (found ≡ some (ok (b, c)))
          × (collect_bases p lru height pruned_topoheight fuel c rest (acc ++ b ∷ [])
              ≡ some (ok (all, c')))
    collect_round none fuel rest acc all c' h = cc h
    collect_round (some (err failure)) fuel rest acc all c' h = cc h
    collect_round (some (ok (b, c))) fuel rest acc all c' h = (b, c, refl, h)

    collected :
        (fuel : ℕ) (c : C) (tips : List K) (acc all : List (Base K)) (c' : C)
        → IsSound p lru height pruned_topoheight c
        → collect_bases p lru height pruned_topoheight fuel c tips acc ≡ some (ok (all, c'))
        → (bs : List (Base K)) × (all ≡ acc ++ bs)
          × AreTipBases tips bs
          × IsSound p lru height pruned_topoheight c'
    unfolding collect_bases
    collected fuel c [] acc all c' s h =
        let q = ok_injective refl (some_injective h) in
        (
          [],
          sym (ap (λ t. t.0) q) ∙ sym (append-nil acc),
          tt,
          subst (IsSound p lru height pruned_topoheight) (ap (λ t. t.1) q) s,
        )
    collected fuel c (t ∷ tips) acc all c' s h =
        let (b, c1, q, r) =
          collect_round (find_tip_base p lru height pruned_topoheight fuel c t) fuel tips acc all c'
            h in
        let (i, s1) = find_tip_base-IsTipBase p lru height pruned_topoheight t fuel c c1 b s q in
        let (bs, k, m, s2) = collected fuel c1 tips (acc ++ b ∷ []) all c' s1 r in
        (b ∷ bs, k ∙ append_assoc acc (b ∷ []) bs, (i, m), s2)

  -- No tip is higher.
  abbrev pub IsHighest : List K → ℕ → Type 0
  IsHighest tips n =
      (t : K) → In tips t → (m : ℕ) × (p.get_height_for_block_hash t ≡ ok m) × (m ≤ n)

  highest-IsHighest :
      (tips : List K) (from n : ℕ) → highest p lru tips from ≡ ok n → (from ≤ n) × IsHighest tips n
  unfolding highest
  highest-IsHighest [] from n h = (ground (arith, ok_injective refl h), λ t m. cc m)
  highest-IsHighest (x ∷ tips) from n h =
      let (k, q, r) = >>=-eq-ok (p.get_height_for_block_hash x) _ h in
      let (l, rest) = highest-IsHighest tips (if ltb from k then k else from) n r in
      (
        ground (arith, l),
        λ t m. elim (Bool-cases (e.beq x t)) [
          | inl f ↦
              (k, ap p.get_height_for_block_hash (sym ((e.beq_iff x t).0 f)) ∙ q, ground (arith, l))
          | inr f ↦ rest t (ground (arith, m, f))
        ],
      )

  answer_lowest_ends :
      (found : Option (Base K)) (c : C) (b : Base K) (c' : C)
      → answer_lowest p lru c found ≡ ok (b, c')
      → (found ≡ some b) × (c ≡ c')
  unfolding answer_lowest
  answer_lowest_ends none c b c' h = cc h
  answer_lowest_ends (some base) c b c' h = (cc h, cc h)

  take_lowest_ends :
      (found : Option (Cached C E (List (Base K) × C))) (b : Base K) (c' : C)
      → take_lowest p lru found ≡ some (ok (b, c'))
      → (bs : List (Base K)) × (c : C) × (found ≡ some (ok (bs, c)))
        × (last (sort_bases bs) ≡ some b)
        × (c ≡ c')
  unfolding take_lowest
  take_lowest_ends none b c' h = cc h
  take_lowest_ends (some (err failure)) b c' h = cc h
  take_lowest_ends (some (ok (bs, c))) b c' h =
      let (q, k) = answer_lowest_ends (last (sort_bases bs)) c b c' (some_injective h) in
      (bs, c, refl, q, k)

  -- A base for all tips, at a height that is not above that of their bases.
  pub record IsCommonBase (tips : List K) (b : Base K) (c' : C) : Type 0 where
    pub best_height : ℕ
    pub best : highest p lru tips 0 ≡ ok best_height
    pub pruned : Option ℕ
    pub pruned_height : p.get_pruned_topoheight ≡ ok pruned
    pub above_tips : IsHighest tips best_height
    pub bases : List (Base K)
    pub of_tips : AreTipBases best_height (unwrap_or_zero pruned) tips bases
    pub of_one : IsBaseOfOne best_height (unwrap_or_zero pruned) tips b
    pub lowest : All (λ x. b.1 ≤ x.1) bases
    pub sound : IsSound p lru best_height (unwrap_or_zero pruned) c'

  -- What the cache has for the best height are tip bases.
  abbrev pub IsSoundFor : List K → C → Type 0
  IsSoundFor tips c =
      (n : ℕ) (pruned : Option ℕ)
      → highest p lru tips 0 ≡ ok n
      → p.get_pruned_topoheight ≡ ok pruned
      → IsSound p lru n (unwrap_or_zero pruned) c

  from_best_height-IsCommonBase :
      (fuel : ℕ) (c c' : C) (tips : List K) (b : Base K) (best : Ask E ℕ)
      (pruned : Ask E (Option ℕ))
      → highest p lru tips 0 ≡ best
      → p.get_pruned_topoheight ≡ pruned
      → IsSoundFor tips c
      → from_best_height p lru fuel c tips best pruned ≡ some (ok (b, c'))
      → IsCommonBase tips b c'
  unfolding from_best_height
  from_best_height-IsCommonBase fuel c c' tips b (err failure) pruned hb hp s h = cc h
  from_best_height-IsCommonBase fuel c c' tips b (ok best) (err failure) hb hp s h = cc h
  from_best_height-IsCommonBase fuel c c' tips b (ok best) (ok pruned) hb hp s h =
      let pr = unwrap_or_zero pruned in
      let (bs, c1, q, k, f) =
        take_lowest_ends (collect_bases p lru best pr fuel c tips []) b c' h in
      let (bs', g, m, s') = collected best pr fuel c tips [] bs c1 (s best pruned hb hp) q in
      let bases : AreTipBases best pr tips bs = subst (AreTipBases best pr tips) (sym g) m in
      let (one, low) =
        last-sort_bases (IsBaseOfOne best pr tips) bs b k
          (each_base best pr tips bs tips (λ t i. i) bases) in
      record {
        best_height = best;
        best = hb;
        pruned = pruned;
        pruned_height = hp;
        above_tips = (highest-IsHighest tips 0 best hb).1;
        bases = bs;
        of_tips = bases;
        of_one = one;
        lowest = low;
        sound = subst (IsSound p lru best pr) f s';
      }

  -- What is found is a tip base of one of the tips, at the best height of the tips, and is not above the
  -- tip bases that are found for the others.
  pub find_common_base-IsCommonBase :
      (fuel : ℕ) (c c' : C) (tips : List K) (b : Base K)
      → IsSoundFor tips c
      → find_common_base p lru fuel c tips ≡ some (ok (b, c'))
      → IsCommonBase tips b c'
  unfolding find_common_base
  find_common_base-IsCommonBase fuel c c' tips b =
      from_best_height-IsCommonBase fuel c c' tips b (highest p lru tips 0) p.get_pruned_topoheight
        refl refl
