-- ===== src/Dag/Reachability/Sound.antt =====
-- What is in the set of a tip.
use xelis_blockchain.Prelude.{
  ℕ, zero, suc, ◌+◌, ◌*◌, ◌≤◌, ◌<◌, ◌≡◌, refl, subst, ◌⊎◌, inl, inr, Bool, true, false, ◌||◌, some,
  List, [], ◌∷◌, arith, leb, if◌then◌else◌, Bool-cases, All,
}
use xelis_blockchain.Prelude.Results.{ok, err, >>=-eq-ok, ok_injective, if_cases, some_injective}
use xelis_blockchain.Prelude.Equality.{Eq, contains, beq_refl}
use xelis_blockchain.Dag.{Provider, Ask, extend, stable_limit}
use xelis_blockchain.Dag.Compare.{In, contains-extend}
use xelis_blockchain.Dag.Reachability.{push_unknown, reach_round, reach_loop, build_reachability}

module _ {K E : Type 0} ⦃e : Eq K⦄ (p : Provider K E) where
  -- A way of `n` steps from a block to one of its ancestors.
  pub data Steps (x : K) : ℕ → K → Type 0 where
    start : Steps x 0 x
    more :
        {n : ℕ} {y z : K} (tips : List K)
        → Steps x n y
        → p.get_past_blocks_for_block_hash y ≡ ok tips
        → In tips z
        → Steps x (n + 1) z

  -- At most twice the stable limit away.
  pub record IsNear (x y : K) : Type 0 where
    pub steps : ℕ
    pub few : steps ≤ 2 * stable_limit
    pub way : Steps x steps y

  abbrev waits_for : K → List (K × ℕ) → Bool
  waits_for y [] = false
  waits_for y (s ∷ stack) = e.beq s.0 y || waits_for y stack

  module _ (hash : K) where
    abbrev IsWay : K × ℕ → Type 0
    IsWay s = Steps hash s.1 s.0 × (s.1 ≤ 2 * stable_limit)

    -- What the loop keeps: the set is near, the stack has ways, and nothing of `must` is forgotten.
    record Inv (must : K → Type 0) (set : List K) (stack : List (K × ℕ)) : Type 0 where
      near : (y : K) → In set y → IsNear hash y
      ways : All IsWay stack
      kept : (y : K) → must y → In set y ⊎ (waits_for y stack ≡ true)

    push-ways :
        (x : K) (l : ℕ) (tips all : List K) (set : List K) (stack : List (K × ℕ))
        → Steps hash l x
        → l < 2 * stable_limit
        → p.get_past_blocks_for_block_hash x ≡ ok all
        → ((y : K) → In tips y → In all y)
        → All IsWay stack
        → All IsWay (push_unknown p set l tips stack)
    unfolding push_unknown
    push-ways x l [] all set stack s b q i h = h
    push-ways x l (t ∷ tips) all set stack s b q i h =
        push-ways x l tips all set (if contains t set then stack else (t, l + 1) ∷ stack) s b q
          (λ y m. i y (ground (arith, m))) (pushed (contains t set))
      where
        pushed : (known : Bool) → All IsWay (if known then stack else (t, l + 1) ∷ stack)
        pushed true = h
        pushed false = ((more all s q (i t (ground (arith, beq_refl e t))), omega (arith, b)), h)

    push-keeps :
        (l : ℕ) (tips set : List K) (stack : List (K × ℕ)) (y : K)
        → In set y ⊎ (waits_for y stack ≡ true) ⊎ In tips y
        → In set y ⊎ (waits_for y (push_unknown p set l tips stack) ≡ true)
    unfolding push_unknown
    push-keeps l [] set stack y h = ground (arith, h)
    push-keeps l (t ∷ tips) set stack y h =
        push-keeps l tips set (if contains t set then stack else (t, l + 1) ∷ stack) y
          (elim (Bool-cases (contains t set)) [
            | inl q ↦ rw q (elim (Bool-cases (e.beq t y)) [
              | inl f ↦ inl (subst (In set) ((e.beq_iff t y).0 f) q)
              | inr f ↦ ground (arith, h, f)
            ])
            | inr q ↦ rw q (ground (arith, h))
          ])

    IsNear-more :
        (x : K) (l : ℕ) (set : List K)
        → IsWay (x, l)
        → ((y : K) → In set y → IsNear hash y)
        → (y : K) → In (extend set (x ∷ [])) y
        → IsNear hash y
    IsNear-more x l set w h y m = elim (Bool-cases (e.beq x y)) [
      | inl f ↦
          subst (IsNear hash) ((e.beq_iff x y).0 f) (record { steps = l; few = w.1; way = w.0 })
      | inr f ↦ h y (ground (arith, m, f, contains-extend y set (x ∷ [])))
    ]

    in_more : (x y : K) (set : List K) → In set y ⊎ (e.beq x y ≡ true) → In (extend set (x ∷ [])) y
    in_more x y set h = ground (arith, h, contains-extend y set (x ∷ []))

    -- One round. What must stay is in the set, on the stack, or among the tips that are pushed.
    Inv-round :
        (must : K → Type 0) (x : K) (l : ℕ) (set : List K) (stack : List (K × ℕ))
        (next : List K × List (K × ℕ))
        → IsWay (x, l)
        → All IsWay stack
        → ((y : K) → In set y → IsNear hash y)
        → ((y : K)
            → must y
            → In set y
              ⊎ (e.beq x y ≡ true)
              ⊎ (waits_for y stack ≡ true)
              ⊎ ((l < 2 * stable_limit)
                  × ((tips : List K) → p.get_past_blocks_for_block_hash x ≡ ok tips → In tips y)))
        → reach_round p x l set stack ≡ ok next
        → Inv must next.0 next.1
    unfolding reach_round
    Inv-round must x l set stack next w ws near kept h =
        elim (if_cases (leb (2 * stable_limit) l) h) [
          | inl (q, r) ↦
              subst (λ n. Inv must n.0 n.1) (ok_injective refl r)
                (record {
                  near = IsNear-more x l set w near;
                  ways = ws;
                  kept = λ y m. elim (kept y m) [
                    | inl i ↦ inl (in_more x y set (inl i))
                    | inr (inl i) ↦ inl (in_more x y set (inr i))
                    | inr (inr (inl i)) ↦ inr i
                    | inr (inr (inr (i, k))) ↦ absurd (ground (arith, i, q))
                  ];
                })
          | inr (q, r) ↦
              let (tips, k, r1) = >>=-eq-ok (p.get_past_blocks_for_block_hash x) _ r in
              let inserted = extend set (x ∷ []) in
              subst (λ n. Inv must n.0 n.1) (ok_injective refl r1)
                (record {
                  near = IsNear-more x l set w near;
                  ways =
                      push-ways x l tips tips inserted stack w.0 (ground (arith, q)) k (λ y m. m)
                        ws;
                  kept = λ y m. push-keeps l tips inserted stack y (elim (kept y m) [
                    | inl i ↦ inl (in_more x y set (inl i))
                    | inr (inl i) ↦ inl (in_more x y set (inr i))
                    | inr (inr (inl i)) ↦ inr (inl i)
                    | inr (inr (inr (i, j))) ↦ inr (inr (j tips k))
                  ]);
                })
        ]

    reached_round :
        (r : Ask E (List K × List (K × ℕ))) (fuel : ℕ) (all : List K)
        → elim r [ err failure ↦ some (err failure) | ok next ↦ reach_loop p fuel next.0 next.1 ]
          ≡ some (ok all)
        → (next : List K × List (K × ℕ)) × (r ≡ ok next)
          × (reach_loop p fuel next.0 next.1 ≡ some (ok all))
    reached_round (err failure) fuel all h = cc h
    reached_round (ok next) fuel all h = (next, refl, h)

    loop_keeps :
        (must : K → Type 0) (fuel : ℕ) (set : List K) (stack : List (K × ℕ)) (all : List K)
        → Inv must set stack
        → reach_loop p fuel set stack ≡ some (ok all)
        → Inv must all []
    unfolding reach_loop
    loop_keeps must zero set [] all i h =
        subst (λ l. Inv must l []) (ok_injective refl (some_injective h)) i
    loop_keeps must (suc fuel) set [] all i h =
        subst (λ l. Inv must l []) (ok_injective refl (some_injective h)) i
    loop_keeps must zero set (s ∷ stack) all i h = cc h
    loop_keeps must (suc fuel) set ((x, l) ∷ stack) all i h =
        let (next, q, r) = reached_round (reach_round p x l set stack) fuel all h in
        let i' =
          Inv-round must x l set stack next i.ways.0 i.ways.1 i.near
            (λ y m. ground (arith, i.kept y m)) q in
        loop_keeps must fuel next.0 next.1 all i' r

  -- A set of a block: the block and its tips, and no block that is not near.
  pub record IsReach (hash : K) (set : List K) : Type 0 where
    pub near : (y : K) → In set y → IsNear hash y
    pub itself : In set hash
    pub tips :
        (past : List K)
        → p.get_past_blocks_for_block_hash hash ≡ ok past
        → (y : K) → In past y
        → In set y

  pub build_reachability-IsReach :
      (fuel : ℕ) (hash : K) (set : List K)
      → build_reachability p fuel hash ≡ some (ok set)
      → IsReach hash set
  unfolding build_reachability reach_loop
  build_reachability-IsReach zero hash set h = cc h
  build_reachability-IsReach (suc fuel) hash set h =
      let (next, q, r) = reached_round hash (reach_round p hash 0 [] []) fuel set h in
      let first =
        Inv-round hash must hash 0 [] [] next (start, omega arith) tt (λ y m. cc m)
          (λ y m. elim m [ inl b ↦ inr (inl b) | inr f ↦ inr (inr (inr (omega arith, f))) ]) q in
      let i = loop_keeps hash must fuel next.0 next.1 set first r in
      record {
        near = i.near;
        itself = ground (arith, i.kept hash (inl (beq_refl e hash)));
        tips = λ past k y m.
            ground (arith, i.kept y (inr (λ tips f. subst (λ l. In l y) (ok_injective k f) m)));
      }
    where
      must : K → Type 0
      must y =
          (e.beq hash y ≡ true)
          ⊎ ((tips : List K) → p.get_past_blocks_for_block_hash hash ≡ ok tips → In tips y)
