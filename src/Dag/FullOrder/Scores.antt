-- ===== src/Dag/FullOrder/Scores.antt =====
-- Which tips are scored and pushed.
use xelis_blockchain.Prelude.{
  ℕ, suc, ◌≤◌, ◌≡◌, refl, sym, ap, ◌∙◌, subst, ◌⊎◌, inl, inr, Bool, true, false, ◌||◌, List, [],
  ◌∷◌, ◌++◌, append_assoc, arith, Bool-cases, length, length-append,
}
use xelis_blockchain.Prelude.Results.{ok, ◌>>=◌, >>=-eq-ok, ok_injective}
use xelis_blockchain.Prelude.Equality.{Eq, contains, contains-append}
use xelis_blockchain.BlockDag.{
  Ord, insert_by, sort_by, ascending, sort_ascending_by_cumulative_difficulty, hashes,
}
use xelis_blockchain.Dag.{Provider, Ask}
use xelis_blockchain.Dag.Compare.{In}
use xelis_blockchain.Dag.FullOrder.{push_all, is_considered, considered_scores}

module _ {K : Type 0} ⦃e : Eq K⦄ where
  module _ ⦃o : Ord K⦄ (before : K × ℕ → K × ℕ → Bool) where
    contains-insert_by :
        (z : K) (x : K × ℕ) (ys : List (K × ℕ))
        → contains z (hashes (insert_by before x ys)) ≡ (e.beq x.0 z || contains z (hashes ys))
    unfolding hashes insert_by
    contains-insert_by z x [] = refl
    contains-insert_by z x (y ∷ ys) = ground (arith, contains-insert_by z x ys)

    contains-sort_by :
        (z : K) (ys : List (K × ℕ))
        → contains z (hashes (sort_by before ys)) ≡ contains z (hashes ys)
    unfolding sort_by hashes
    contains-sort_by z [] = refl
    contains-sort_by z (y ∷ ys) =
        ground (arith, contains-insert_by z y (sort_by before ys), contains-sort_by z ys)

    length-insert_by :
        (x : K × ℕ) (ys : List (K × ℕ))
        → length (hashes (insert_by before x ys)) ≡ suc (length (hashes ys))
    unfolding hashes insert_by
    length-insert_by x [] = refl
    length-insert_by x (y ∷ ys) = ground (arith, length-insert_by x ys)

    length-sort_by : (ys : List (K × ℕ)) → length (hashes (sort_by before ys)) ≡ length (hashes ys)
    unfolding sort_by hashes
    length-sort_by [] = refl
    length-sort_by (y ∷ ys) =
        ground (arith, length-insert_by y (sort_by before ys), length-sort_by ys)

  -- What is pushed lies on top of the stack.
  pub push_all_lem :
      (stack xs : List K)
      → (top : List K) × (push_all stack xs ≡ top ++ stack)
        × ((z : K) → contains z top ≡ contains z xs)
        × (length top ≡ length xs)
  unfolding push_all
  push_all_lem stack [] = ([], refl, λ z. refl, refl)
  push_all_lem stack (x ∷ xs) =
      let (top, q, m, n) = push_all_lem (x ∷ stack) xs in
      (
        top ++ x ∷ [],
        q ∙ sym (append_assoc top (x ∷ []) stack),
        λ z. ground (arith, contains-append z top (x ∷ []), m z),
        omega (arith, length-append top (x ∷ []), n),
      )

module _ {K E : Type 0} ⦃e : Eq K⦄ ⦃o : Ord K⦄ (p : Provider K E) (base_topo_height : ℕ) where
  -- The hashes that are scored are the tips that are taken into account.
  pub record IsScored (tips : List K) (scored : List K) : Type 0 where
    pub taken : (t : K) → In tips t → is_considered p base_topo_height t ≡ ok true → In scored t
    pub from_tips :
        (t : K) → In scored t → In tips t × (is_considered p base_topo_height t ≡ ok true)
    pub size : length scored ≤ length tips

  scores_step :
      (taken : Bool) (x : K) (cumulative : Ask E ℕ) (rest : Ask E (List (K × ℕ)))
      (scores : List (K × ℕ))
      → (elim taken [
        | true ↦ cumulative >>= λ diff. rest >>= λ others. ok ((x, diff) ∷ others)
        | false ↦ rest
      ])
        ≡ ok scores
      → (others : List (K × ℕ)) × (rest ≡ ok others)
        × ((taken ≡ true) × (hashes scores ≡ x ∷ hashes others)
            ⊎ (taken ≡ false) × (hashes scores ≡ hashes others))
  unfolding hashes
  scores_step true x cumulative rest scores h =
      let (diff, q, r) = >>=-eq-ok cumulative _ h in
      let (others, k, s) = >>=-eq-ok rest _ r in
      (others, k, inl (refl, sym (ap hashes (ok_injective refl s))))
  scores_step false x cumulative rest scores h = (scores, h, inr (refl, refl))

  IsScored-more :
      (x : K) (tips others : List K)
      → is_considered p base_topo_height x ≡ ok true
      → IsScored tips others
      → IsScored (x ∷ tips) (x ∷ others)
  IsScored-more x tips others q s = record {
    taken = λ t m k. ground (arith, m, s.taken t, k);
    from_tips = λ t m. elim (Bool-cases (e.beq x t)) [
      | inl f ↦ (
        ground (arith, f),
        subst (λ y. is_considered p base_topo_height y ≡ ok true) ((e.beq_iff x t).0 f) q,
      )
      | inr f ↦ ground (arith, s.from_tips t, m, f)
    ];
    size = omega (arith, s.size);
  }

  IsScored-less :
      (x : K) (tips others : List K)
      → is_considered p base_topo_height x ≡ ok false
      → IsScored tips others
      → IsScored (x ∷ tips) others
  IsScored-less x tips others q s = record {
    taken = λ t m k. elim (Bool-cases (e.beq x t)) [
      | inl f ↦ cc (q, k, (e.beq_iff x t).0 f)
      | inr f ↦ s.taken t (ground (arith, m, f)) k
    ];
    from_tips = λ t m. ground (arith, s.from_tips t, m);
    size = omega (arith, s.size);
  }

  considered_scores-IsScored :
      (tips : List K) (scores : List (K × ℕ))
      → considered_scores p base_topo_height tips ≡ ok scores
      → IsScored tips (hashes scores)
  unfolding considered_scores hashes
  considered_scores-IsScored [] scores h =
      subst (λ l. IsScored [] (hashes l)) (ok_injective refl h)
        (record { taken = λ t m k. m; from_tips = λ t m. cc m; size = omega arith })
  considered_scores-IsScored (x ∷ tips) scores h =
      let (taken, q, r) = >>=-eq-ok (is_considered p base_topo_height x) _ h in
      let (others, k, which) =
        scores_step taken x (p.get_cumulative_difficulty_for_block_hash x)
          (considered_scores p base_topo_height tips) scores r in
      let rest = considered_scores-IsScored tips others k in
      elim which [
        | inl (f, g) ↦
            subst (IsScored (x ∷ tips)) (sym g)
              (IsScored-more x tips (hashes others) (q ∙ ap ok f) rest)
        | inr (f, g) ↦
            subst (IsScored (x ∷ tips)) (sym g)
              (IsScored-less x tips (hashes others) (q ∙ ap ok f) rest)
      ]

  -- The order does not matter.
  IsScored-same :
      (tips scored other : List K)
      → ((t : K) → contains t other ≡ contains t scored)
      → length other ≡ length scored
      → IsScored tips scored
      → IsScored tips other
  IsScored-same tips scored other m n s = record {
    taken = λ t i k. m t ∙ s.taken t i k;
    from_tips = λ t i. s.from_tips t (sym (m t) ∙ i);
    size = omega (arith, s.size, n);
  }

  pub pushed_lem :
      (tips stack : List K) (scores : List (K × ℕ))
      → considered_scores p base_topo_height tips ≡ ok scores
      → (top : List K) × (push_all stack (hashes (sort_ascending_by_cumulative_difficulty scores))
          ≡ top ++ stack)
        × IsScored tips top
  unfolding sort_ascending_by_cumulative_difficulty
  pushed_lem tips stack scores h =
      let sorted = sort_by ascending scores in
      let (top, f, m, n) = push_all_lem stack (hashes sorted) in
      (
        top,
        f,
        IsScored-same tips (hashes scores) top (λ t. m t ∙ contains-sort_by ascending t scores)
            (n ∙ length-sort_by ascending scores) (considered_scores-IsScored tips scores h),
      )
