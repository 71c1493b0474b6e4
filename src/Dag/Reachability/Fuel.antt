-- ===== src/Dag/Reachability/Fuel.antt =====
-- `verify_non_reachability` answers: how much fuel its loops need.
use xelis_blockchain.Prelude.{
  ℕ, zero, suc, ◌+◌, ◌-◌, ◌*◌, ◌≤◌, ◌<◌, ◌≡◌, refl, ap, ◌∙◌, subst, inl, inr, Bool, not, Option,
  none, some, List, [], ◌∷◌, ◌++◌, arith, leb, Bool-cases, length,
}
use xelis_blockchain.Prelude.Results.{
  ok, err, Returns, if_returns, >>=_returns, >>=-eq-ok, ok_injective, if_cases, some_injective,
}
use xelis_blockchain.Prelude.Equality.{Eq, contains}
use xelis_blockchain.Dag.{Provider, Ask, extend, stable_limit}
use xelis_blockchain.Dag.Weight.{weight, weight_some}
use xelis_blockchain.Dag.Reachability.{
  any_covered, push_unknown, reach_round, reach_loop, build_reachability, reach_all, judge,
  verify_non_reachability,
}
use xelis_blockchain.Dag.Reachability.Verdict.{Verdict, verify_non_reachability-Verdict}

module _ {K E : Type 0} ⦃e : Eq K⦄ (p : Provider K E) (most : ℕ)
    (known : (x : K)
      → (tips : List K) × (p.get_past_blocks_for_block_hash x ≡ ok tips)
        × (length tips ≤ most)) where
  -- The rounds for the entries of a stack: fewer the deeper they are.
  cost : List (K × ℕ) → ℕ
  cost [] = 0
  cost (s ∷ stack) = weight most (2 * stable_limit - s.1) + cost stack

  cost-push :
      (set : List K) (l : ℕ) (tips : List K) (stack : List (K × ℕ))
      → cost (push_unknown p set l tips stack)
        ≤ length tips * weight most (2 * stable_limit - (l + 1)) + cost stack
  unfolding push_unknown cost
  cost-push set l [] stack = omega arith
  cost-push set l (t ∷ tips) stack = elim (Bool-cases (contains t set)) [
    | inl q ↦ rw (q, push_unknown) (grind (arith, cost-push set l tips stack))
    | inr q ↦ rw (q, push_unknown) (grind (arith, cost-push set l tips ((t, l + 1) ∷ stack)))
  ]

  weight_step :
      (l : ℕ)
      → l < 2 * stable_limit
      → weight most (2 * stable_limit - l) ≡ 1 + most * weight most (2 * stable_limit - (l + 1))
  unfolding weight
  weight_step l h = ap (weight most) same
    where
      same : 2 * stable_limit - l ≡ suc (2 * stable_limit - (l + 1))
      same = omega (arith, h)

  round_cost :
      (x : K) (l : ℕ) (set : List K) (stack : List (K × ℕ)) (next : List K × List (K × ℕ))
      → reach_round p x l set stack ≡ ok next
      → cost next.1 < cost ((x, l) ∷ stack)
  unfolding reach_round cost
  round_cost x l set stack next h = elim (if_cases (leb (2 * stable_limit) l) h) [
    | inl (q, r) ↦
        subst (λ n. cost n.1 < weight most (2 * stable_limit - l) + cost stack)
          (ok_injective refl r) (omega (arith, weight_some most (2 * stable_limit - l)))
    | inr (q, r) ↦
        let (tips, k, r1) = >>=-eq-ok (p.get_past_blocks_for_block_hash x) _ r in
        let (tips', k', few) = known x in
        let size : length tips ≤ most = subst (λ t. length t ≤ most) (ok_injective k' k) few in
        let spent = cost-push (extend set (x ∷ [])) l tips stack in
        let step = weight_step l (ground (arith, q)) in
        subst (λ n. cost n.1 < weight most (2 * stable_limit - l) + cost stack)
          (ok_injective refl r1) (grind (arith, size, spent, step))
  ]

  round_returns :
      (x : K) (l : ℕ) (set : List K) (stack : List (K × ℕ)) → Returns (reach_round p x l set stack)
  unfolding reach_round
  round_returns x l set stack =
      let (tips, q, few) = known x in
      if_returns (leb (2 * stable_limit) l) (_, refl) (>>=_returns _ q (_, refl))

  loop_returns :
      (fuel : ℕ) (set : List K) (stack : List (K × ℕ))
      → cost stack ≤ fuel
      → (all : List K) × (reach_loop p fuel set stack ≡ some (ok all))
  unfolding reach_loop cost
  loop_returns zero set [] h = (set, refl)
  loop_returns (suc fuel) set [] h = (set, refl)
  loop_returns zero set (s ∷ stack) h =
      absurd (omega (arith, h, weight_some most (2 * stable_limit - s.1)))
  loop_returns (suc fuel) set ((x, l) ∷ stack) h =
      let (next, q) = round_returns x l set stack in
      let (all, r) =
        loop_returns fuel next.0 next.1 (omega (arith, h, round_cost x l set stack next q)) in
      (all, after (reach_round p x l set stack) next all q r)
    where
      after :
          (r : Ask E (List K × List (K × ℕ))) (next : List K × List (K × ℕ)) (all : List K)
          → r ≡ ok next
          → reach_loop p fuel next.0 next.1 ≡ some (ok all)
          → elim r [ err failure ↦ some (err failure) | ok next ↦ reach_loop p fuel next.0 next.1 ]
            ≡ some (ok all)
      after (err failure) next all q h = cc q
      after (ok n) next all q h = ap (λ z. reach_loop p fuel z.0 z.1) (ok_injective refl q) ∙ h

  cost_start : (t : K) → cost ((t, 0) ∷ []) ≡ weight most (2 * stable_limit)
  unfolding cost
  cost_start t = omega arith

  reach_all_returns :
      (fuel : ℕ) (tips : List K) (acc : List (List K))
      → weight most (2 * stable_limit) ≤ fuel
      → (all : List (List K)) × (reach_all p fuel tips acc ≡ some (ok all))
  unfolding reach_all build_reachability
  reach_all_returns fuel [] acc h = (acc, refl)
  reach_all_returns fuel (t ∷ tips) acc h =
      let (set, q) = loop_returns fuel [] ((t, 0) ∷ []) (start_cost h) in
      let (all, r) = reach_all_returns fuel tips (acc ++ set ∷ []) h in
      (all, after (reach_loop p fuel [] ((t, 0) ∷ [])) set all q r)
    where
      start_cost : weight most (2 * stable_limit) ≤ fuel → cost ((t, 0) ∷ []) ≤ fuel
      start_cost h = omega (arith, cost_start t, h)

      after :
          (found : Option (Ask E (List K))) (set : List K) (all : List (List K))
          → found ≡ some (ok set)
          → reach_all p fuel tips (acc ++ set ∷ []) ≡ some (ok all)
          → elim found [
            | none ↦ none
            | some answer ↦ elim answer [
              | err failure ↦ some (err failure)
              | ok set ↦ reach_all p fuel tips (acc ++ set ∷ [])
            ]
          ]
            ≡ some (ok all)
      after none set all q h = cc q
      after (some (err failure)) set all q h = cc q
      after (some (ok s)) set all q h =
          ap (λ z. reach_all p fuel tips (acc ++ z ∷ [])) (ok_injective refl (some_injective q)) ∙ h

  -- Where the storage has the tips of every block, at most `most` of them, and the fuel is the weight of
  -- sixteen steps, there is an answer. If the tips are accepted, no tip is another one or one of its
  -- tips; if they are refused, one of them is reached from another in at most sixteen steps from a block
  -- to one of its tips.
  pub verify_non_reachability_returns :
      (fuel : ℕ) (tips : List K)
      → weight most (2 * stable_limit) ≤ fuel
      → (b : Bool) × (verify_non_reachability p fuel tips ≡ some (ok b)) × Verdict p tips b
  unfolding verify_non_reachability judge
  verify_non_reachability_returns fuel tips h =
      let (all, q) = reach_all_returns fuel tips [] h in
      let done : verify_non_reachability p fuel tips ≡ some (ok (not (any_covered p 0 tips all))) =
        ap (judge p tips) q in
      (not (any_covered p 0 tips all), done, verify_non_reachability-Verdict p fuel tips _ done)
