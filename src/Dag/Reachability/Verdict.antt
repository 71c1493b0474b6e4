-- ===== src/Dag/Reachability/Verdict.antt =====
-- What `verify_non_reachability` answers.
use xelis_blockchain.Prelude.{
  ℕ, zero, suc, ◌+◌, ◌≡◌, refl, sym, ◌∙◌, subst, ◌≢◌, inl, inr, true, false, not, ◌&&◌, Option,
  none, some, List, [], ◌∷◌, ◌++◌, append_assoc, append-nil, arith, ◌==◌, Bool-cases, get_elem?,
  Bool,
}
use xelis_blockchain.Prelude.Results.{ok, err, ok_injective, some_injective}
use xelis_blockchain.Prelude.Equality.{Eq, contains}
use xelis_blockchain.Dag.{Provider, Ask, Bool}
use xelis_blockchain.Dag.Compare.{In}
use xelis_blockchain.Dag.Reachability.{
  build_reachability, reach_all, covered, any_covered, judge, verify_non_reachability,
}
use xelis_blockchain.Dag.Reachability.Sound.{IsNear, IsReach, build_reachability-IsReach}

module _ {K E : Type 0} ⦃e : Eq K⦄ (p : Provider K E) where
  abbrev Sets : List K → List (List K) → Type 0
  Sets [] [] = Unit {0}
  Sets (t ∷ ts) (r ∷ rs) = IsReach p t r × Sets ts rs
  Sets [] (r ∷ rs) = ⊥
  Sets (t ∷ ts) [] = ⊥

  all_round :
      (found : Option (Ask E (List K))) (fuel : ℕ) (rest : List K) (acc all : List (List K))
      → elim found [
        | none ↦ none
        | some answer ↦ elim answer [
          | err failure ↦ some (err failure)
          | ok set ↦ reach_all p fuel rest (acc ++ set ∷ [])
        ]
      ]
        ≡ some (ok all)
      → (set : List K) × (found ≡ some (ok set))
        × (reach_all p fuel rest (acc ++ set ∷ []) ≡ some (ok all))
  all_round none fuel rest acc all h = cc h
  all_round (some (err failure)) fuel rest acc all h = cc h
  all_round (some (ok set)) fuel rest acc all h = (set, refl, h)

  reach_all-Sets :
      (fuel : ℕ) (tips : List K) (acc all : List (List K))
      → reach_all p fuel tips acc ≡ some (ok all)
      → (rs : List (List K)) × (all ≡ acc ++ rs) × Sets tips rs
  unfolding reach_all
  reach_all-Sets fuel [] acc all h =
      ([], sym (ok_injective refl (some_injective h)) ∙ sym (append-nil acc), tt)
  reach_all-Sets fuel (t ∷ tips) acc all h =
      let (set, q, r) = all_round (build_reachability p fuel t) fuel tips acc all h in
      let (rs, k, s) = reach_all-Sets fuel tips (acc ++ set ∷ []) all r in
      (set ∷ rs, k ∙ append_assoc acc (set ∷ []) rs, (build_reachability-IsReach p fuel t set q, s))

  -- The second is neither the first nor one of its tips.
  abbrev pub Unrelated : K → K → Type 0
  Unrelated t s =
      (e.beq t s ≡ false)
      × ((past : List K) → p.get_past_blocks_for_block_hash t ≡ ok past → contains s past ≡ false)

  not_in : (t s : K) (set : List K) → IsReach p t set → contains s set ≡ false → Unrelated t s
  not_in t s set r h = (
    elim (Bool-cases (e.beq t s)) [
      | inl q ↦ absurd (cc (subst (In set) ((e.beq_iff t s).0 q) r.itself, h))
      | inr q ↦ q
    ],
    λ past k. elim (Bool-cases (contains s past)) [
      | inl m ↦ absurd (cc (r.tips past k s m, h))
      | inr m ↦ m
    ],
  )

  -- Another position, whose tip has this block near.
  covered-true :
      (i : ℕ) (s : K) (j : ℕ) (ts : List K) (rs : List (List K))
      → Sets ts rs
      → covered p i s j rs ≡ true
      → (m : ℕ) × (t : K) × (get_elem? ts m ≡ some t) × (i ≢ j + m) × IsNear p t s
  unfolding covered
  covered-true i s j [] [] h c = cc c
  covered-true i s j [] (r ∷ rs) h c = elim h [ ]
  covered-true i s j (t ∷ ts) [] h c = elim h [ ]
  covered-true i s j (t ∷ ts) (r ∷ rs) (h, hs) c =
      elim (Bool-cases (not (i == j) && contains s r)) [
        | inl q ↦ (0, t, refl, ground (arith, q), h.near s (ground (arith, q)))
        | inr q ↦
            let (m, x, g, d, n) = covered-true i s (j + 1) ts rs hs (ground (arith, c, q)) in
            (suc m, x, g, λ k. d (omega (arith, k)), n)
      ]

  covered-false :
      (i : ℕ) (s : K) (j : ℕ) (ts : List K) (rs : List (List K))
      → Sets ts rs
      → covered p i s j rs ≡ false
      → (m : ℕ) (t : K) → get_elem? ts m ≡ some t
      → i ≢ j + m
      → Unrelated t s
  unfolding covered
  covered-false i s j [] [] h c m t g d = cc g
  covered-false i s j [] (r ∷ rs) h c m t g d = elim h [ ]
  covered-false i s j (t ∷ ts) [] h c m x g d = elim h [ ]
  covered-false i s j (t ∷ ts) (r ∷ rs) (h, hs) c zero x g d =
      subst (λ z. Unrelated z s) (some_injective g) (not_in t s r h (ground (arith, c, d)))
  covered-false i s j (t ∷ ts) (r ∷ rs) (h, hs) c (suc m) x g d =
      covered-false i s (j + 1) ts rs hs (ground (arith, c)) m x g (λ k. d (omega (arith, k)))

  -- What an answer says of the tips.
  pub data Verdict (tips : List K) : Bool → Type 0 where
    apart :
        ((i j : ℕ) (s t : K)
          → get_elem? tips i ≡ some s
          → get_elem? tips j ≡ some t
          → i ≢ j
          → Unrelated t s)
        → Verdict tips true
    related :
        (i j : ℕ) (s t : K)
        → get_elem? tips i ≡ some s
        → get_elem? tips j ≡ some t
        → i ≢ j
        → IsNear p t s
        → Verdict tips false

  any_true :
      (n : ℕ) (some_tips ts : List K) (rs : List (List K))
      → Sets ts rs
      → any_covered p n some_tips rs ≡ true
      → (i m : ℕ) × (s : K) × (t : K) × (get_elem? some_tips i ≡ some s)
        × (get_elem? ts m ≡ some t)
        × (n + i ≢ m)
        × IsNear p t s
  unfolding any_covered
  any_true n [] ts rs h c = cc c
  any_true n (s ∷ rest) ts rs h c = elim (Bool-cases (covered p n s 0 rs)) [
    | inl q ↦
        let (m, t, g, d, near) = covered-true n s 0 ts rs h q in
        (0, m, s, t, refl, g, (λ k. d (omega (arith, k))), near)
    | inr q ↦
        let (i, m, x, t, f, g, d, near) = any_true (n + 1) rest ts rs h (ground (arith, c, q)) in
        (suc i, m, x, t, f, g, (λ k. d (omega (arith, k))), near)
  ]

  any_false :
      (n : ℕ) (some_tips ts : List K) (rs : List (List K))
      → Sets ts rs
      → any_covered p n some_tips rs ≡ false
      → (i m : ℕ) (s t : K) → get_elem? some_tips i ≡ some s
      → get_elem? ts m ≡ some t
      → n + i ≢ m
      → Unrelated t s
  unfolding any_covered
  any_false n [] ts rs h c i m s t f g d = cc f
  any_false n (x ∷ rest) ts rs h c zero m s t f g d =
      subst (Unrelated t) (some_injective f)
        (covered-false n x 0 ts rs h (ground (arith, c)) m t g (λ k. d (omega (arith, k))))
  any_false n (x ∷ rest) ts rs h c (suc i) m s t f g d =
      any_false (n + 1) rest ts rs h (ground (arith, c)) i m s t f g (λ k. d (omega (arith, k)))

  decided :
      (tips : List K) (rs : List (List K)) (b : Bool)
      → Sets tips rs
      → not (any_covered p 0 tips rs) ≡ b
      → Verdict tips b
  decided tips rs true h q = apart (λ i j s t f g d.
      any_false 0 tips tips rs h (ground (arith, q)) i j s t f g (λ k. d (omega (arith, k))))
  decided tips rs false h q =
      let (i, m, s, t, f, g, d, near) = any_true 0 tips tips rs h (ground (arith, q)) in
      related i m s t f g (λ k. d (omega (arith, k))) near

  judged :
      (tips : List K) (r : Option (Ask E (List (List K)))) (b : Bool)
      → judge p tips r ≡ some (ok b)
      → (rs : List (List K)) × (r ≡ some (ok rs)) × (not (any_covered p 0 tips rs) ≡ b)
  unfolding judge
  judged tips none b h = cc h
  judged tips (some (err failure)) b h = cc h
  judged tips (some (ok rs)) b h = (rs, refl, ok_injective refl (some_injective h))

  -- If the tips are accepted, no tip is another one or one of its tips; if they are refused, one of them
  -- is reached from another in at most sixteen steps from a block to one of its tips.
  pub verify_non_reachability-Verdict :
      (fuel : ℕ) (tips : List K) (b : Bool)
      → verify_non_reachability p fuel tips ≡ some (ok b)
      → Verdict tips b
  unfolding verify_non_reachability
  verify_non_reachability-Verdict fuel tips b h =
      let (all, q, r) = judged tips (reach_all p fuel tips []) b h in
      let (rs, k, s) = reach_all-Sets fuel tips [] all q in
      decided tips all b (subst (Sets tips) (sym k) s) r
