-- ===== src/Dag/TipBase/Complete.antt =====
-- `find_common_base` returns where the storage answers for the ancestors of the tips.
use xelis_blockchain.Prelude.{
  ℕ, ◌≤◌, ◌≡◌, refl, ap, ◌∙◌, subst, Option, none, some, List, [], ◌∷◌, ◌++◌, arith, length, ◌+◌,
  length-append,
}
use xelis_blockchain.Prelude.Results.{ok, err, ok_injective, some_injective}
use xelis_blockchain.Prelude.Equality.{Eq, beq_refl}
use xelis_blockchain.Dag.{Provider, length, length-append}
use xelis_blockchain.Dag.Compare.{In}
use xelis_blockchain.Dag.FullOrder.{LruCache}
use xelis_blockchain.Dag.TipBase.{
  Base, Cached, find_tip_base, sort_bases, last, collect_bases, highest, unwrap_or_zero,
  take_lowest, answer_lowest, from_best_height, find_common_base,
}
use xelis_blockchain.Dag.TipBase.Lowest.{sort_bases-some}
use xelis_blockchain.Dag.TipBase.Loop.{IsSound}
use xelis_blockchain.Dag.Weight.{weight}
use xelis_blockchain.Dag.TipBase.Fuel.{IsBounded, find_tip_base_returns}
use xelis_blockchain.Dag.TipBase.Common.{IsSoundFor, IsCommonBase, find_common_base-IsCommonBase}

module _ {C K E : Type 0} ⦃e : Eq K⦄ (p : Provider K E) (lru : LruCache C (K × ℕ) (Base K)) where
  module _ (height pruned_topoheight : ℕ) (rank : K → ℕ) (most fuel : ℕ) where
    -- The fuel is enough for each of the tips.
    abbrev pub AreBounded : List K → Type 0
    AreBounded tips =
        (t : K)
        → In tips t
        → IsBounded p height pruned_topoheight rank most t × (weight most (rank t) ≤ fuel)

    collect_returns :
        (c : C) (tips : List K) (acc : List (Base K))
        → AreBounded tips
        → IsSound p lru height pruned_topoheight c
        → (answer : List (Base K) × C) × (collect_bases p lru height pruned_topoheight fuel c tips
              acc
            ≡ some (ok answer))
          × (length answer.0 ≡ length acc + length tips)
    unfolding collect_bases
    collect_returns c [] acc h s = ((acc, c), refl, omega arith)
    collect_returns c (t ∷ tips) acc h s =
        let (bound, enough) = h t (ground (arith, beq_refl e t)) in
        let (b, c1, q, i, s1) =
          find_tip_base_returns p lru height pruned_topoheight t rank most bound fuel c s enough in
        let (answer, r, size) =
          collect_returns c1 tips (acc ++ b ∷ []) (λ x m. h x (ground (arith, m))) s1 in
        (
          answer,
          more (find_tip_base p lru height pruned_topoheight fuel c t) b c1 answer q r,
          omega (arith, size, length-append acc (b ∷ [])),
        )
      where
        more :
            (found : Option (Cached C E (Base K × C))) (b : Base K) (c1 : C)
            (answer : List (Base K) × C)
            → found ≡ some (ok (b, c1))
            → collect_bases p lru height pruned_topoheight fuel c1 tips (acc ++ b ∷ [])
              ≡ some (ok answer)
            → elim found [
              | none ↦ none
              | some answer ↦ elim answer [
                | err failure ↦ some (err failure)
                | ok a ↦
                    collect_bases p lru height pruned_topoheight fuel a.1 tips (acc ++ a.0 ∷ [])
              ]
            ]
              ≡ some (ok answer)
        more none b c1 answer q r = cc q
        more (some (err failure)) b c1 answer q r = cc q
        more (some (ok a)) b c1 answer q r =
            let k = ok_injective refl (some_injective q) in
            ap (λ z. collect_bases p lru height pruned_topoheight fuel z.1 tips (acc ++ z.0 ∷ [])) k
            ∙ r

  -- There is a lowest one among some bases.
  some_lowest :
      (bases : List (Base K)) → 1 ≤ length bases → (b : Base K) × (last (sort_bases bases) ≡ some b)
  some_lowest [] l = absurd (omega (arith, l))
  some_lowest (b ∷ bases) l = sort_bases-some b bases

  take_lowest_returns :
      (bases : List (Base K)) (c : C)
      → 1 ≤ length bases
      → (b : Base K) × (take_lowest p lru (some (ok (bases, c))) ≡ some (ok (b, c)))
  unfolding take_lowest answer_lowest
  take_lowest_returns bases c l =
      let (b, q) = some_lowest bases l in (b, ap (λ o. some (answer_lowest p lru c o)) q)

  from_best_height_returns :
      (n : ℕ) (pruned : Option ℕ) (rank : K → ℕ) (most fuel : ℕ) (c : C) (tips : List K)
      → 1 ≤ length tips
      → AreBounded n (unwrap_or_zero pruned) rank most fuel tips
      → IsSound p lru n (unwrap_or_zero pruned) c
      → (answer : Base K × C) × (from_best_height p lru fuel c tips (ok n) (ok pruned)
          ≡ some (ok answer))
  unfolding from_best_height
  from_best_height_returns n pruned rank most fuel c tips l h s =
      let (answer, q, size) =
        collect_returns n (unwrap_or_zero pruned) rank most fuel c tips [] h s in
      let (b, r) = take_lowest_returns answer.0 answer.1 (omega (arith, l, size)) in
      ((b, answer.1), ap (take_lowest p lru) q ∙ r)

  -- For one or more tips, each with its weight as fuel, and under the conditions of `find_tip_base` for
  -- each of them at the greatest of their heights, a common base is returned: a tip base of one of them
  -- that is not above the tip bases which are found for the others, one for each.
  pub find_common_base_returns :
      (n : ℕ) (pruned : Option ℕ) (rank : K → ℕ) (most fuel : ℕ) (c : C) (tips : List K)
      → 1 ≤ length tips
      → highest p lru tips 0 ≡ ok n
      → p.get_pruned_topoheight ≡ ok pruned
      → AreBounded n (unwrap_or_zero pruned) rank most fuel tips
      → IsSound p lru n (unwrap_or_zero pruned) c
      → (b : Base K) × (c' : C) × (find_common_base p lru fuel c tips ≡ some (ok (b, c')))
        × IsCommonBase p lru tips b c'
  unfolding find_common_base
  find_common_base_returns n pruned rank most fuel c tips l hn hp h s =
      let (answer, q) = from_best_height_returns n pruned rank most fuel c tips l h s in
      let done : find_common_base p lru fuel c tips ≡ some (ok answer) =
        ap (λ a. from_best_height p lru fuel c tips a p.get_pruned_topoheight) hn
        ∙ ap (from_best_height p lru fuel c tips (ok n)) hp
        ∙ q in
      let sound : IsSoundFor p lru tips c = λ m o qm qo.
        subst (λ k. IsSound p lru k (unwrap_or_zero o) c) (ok_injective hn qm)
          (subst (λ k. IsSound p lru n (unwrap_or_zero k) c) (ok_injective hp qo) s) in
      (
        answer.0,
        answer.1,
        done,
        find_common_base-IsCommonBase p lru fuel c answer.1 tips answer.0 sound done,
      )
