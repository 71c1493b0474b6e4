-- ===== src/Dag/Side.antt =====
-- What a side block is.
use xelis_blockchain.Prelude.{
  ℕ, zero, suc, ◌+◌, ◌-◌, ◌≤◌, ◌<◌, ◌≡◌, refl, sym, subst, ◌⊎◌, inl, inr, Bool, true, false, not,
  ◌||◌, arith, ltb, leb, ◌==◌, Bool-cases, ==_iff,
}
use xelis_blockchain.Prelude.Results.{ok, >>=-eq-ok, ok_injective, if_cases}
use xelis_blockchain.Dag.{Provider, Ask, stable_limit, side_loop, is_side_block_internal}

module _ {K E : Type 0} (p : Provider K E) where
  -- The height of the block of a topological height.
  pub record IsAt (j n : ℕ) : Type 0 where
    pub hash : K
    pub at : p.get_hash_at_topo_height j ≡ ok hash
    pub height : p.get_height_for_block_hash hash ≡ ok n

  -- Among the `rounds` topological heights up to `i`, without 0, the first that is found has a block of
  -- at least this height, or all blocks are lower.
  pub data Below (height rounds i : ℕ) : Bool → Type 0 where
    found :
        (j n : ℕ)
        → 0 < j
        → j ≤ i
        → i < j + rounds
        → IsAt j n
        → height ≤ n
        → Below height rounds i true
    lower :
        ((j : ℕ) → 0 < j → j ≤ i → i < j + rounds → (n : ℕ) × IsAt j n × (n < height))
        → Below height rounds i false

  Below-more :
      (height rounds i n : ℕ) (b : Bool)
      → IsAt (suc i) n
      → n < height
      → Below height rounds i b
      → Below height (suc rounds) (suc i) b
  Below-more height rounds i n b a l (found j m pos u v at k) =
      found j m pos (omega (arith, u)) (omega (arith, v)) at k
  Below-more height rounds i n b a l (lower h) = lower (λ j pos u v.
      elim (Bool-cases (j == suc i)) [
        | inl q ↦ (n, subst (λ k. IsAt k n) (sym ((==_iff j (suc i)).0 q)) a, l)
        | inr q ↦ h j pos (ground (arith, u, q)) (omega (arith, v))
      ])

  side_round :
      (c : Bool) (rest : Ask E Bool) {b : Bool}
      → elim c [ true ↦ ok true | false ↦ rest ] ≡ ok b
      → ((c ≡ true) × (b ≡ true)) ⊎ ((c ≡ false) × (rest ≡ ok b))
  side_round true rest h = inl (refl, cc h)
  side_round false rest h = inr (refl, h)

  pub side_loop-Below :
      (height rounds i : ℕ) (b : Bool)
      → side_loop p height rounds i ≡ ok b
      → Below height rounds i b
  unfolding side_loop
  side_loop-Below height zero i b h =
      subst (Below height zero i) (ok_injective refl h)
        (lower (λ j pos u v. absurd (omega (arith, u, v))))
  side_loop-Below height (suc rounds) zero b h =
      subst (Below height (suc rounds) zero) (ok_injective refl h)
        (lower (λ j pos u v. absurd (omega (arith, pos, u))))
  side_loop-Below height (suc rounds) (suc i) b h =
      let (hash, q, r) = >>=-eq-ok (p.get_hash_at_topo_height (suc i)) _ h in
      let (n, k, s) = >>=-eq-ok (p.get_height_for_block_hash hash) _ r in
      let a : IsAt (suc i) n = record { hash = hash; at = q; height = k } in
      elim (side_round (leb height n) (side_loop p height rounds i) s) [
        | inl (c, f) ↦
            subst (Below height (suc rounds) (suc i)) (sym f)
              (found (suc i) n (omega arith) (omega arith) (omega arith) a (ground (arith, c)))
        | inr (c, f) ↦
            Below-more height rounds i n b a (ground (arith, c))
              (side_loop-Below height rounds i b f)
      ]

  -- What is answered for a block: it is not ordered, it is the first or above the given topological
  -- height, or it has been compared with the eight blocks before it.
  pub data SideAnswer (hash : K) (current : ℕ) : Bool → Type 0 where
    unordered : p.is_block_topological_ordered hash ≡ false → SideAnswer hash current false
    outside :
        (t : ℕ)
        → p.get_topo_height_for_hash hash ≡ ok t
        → (t ≡ 0) ⊎ (current < t)
        → SideAnswer hash current false
    compared :
        (t n : ℕ) (b : Bool)
        → p.is_block_topological_ordered hash ≡ true
        → p.get_topo_height_for_hash hash ≡ ok t
        → 0 < t
        → t ≤ current
        → p.get_height_for_block_hash hash ≡ ok n
        → Below n stable_limit (t - 1) b
        → SideAnswer hash current b

  -- A block of the main chain is a side block if one of the eight blocks before it in the topological
  -- order, block 0 left out, is at least as high; it is none if all of them are lower, if it is not
  -- ordered, if it is the first block, and if it comes after the given topological height.
  pub is_side_block-SideAnswer :
      (hash : K) (current : ℕ) (b : Bool)
      → is_side_block_internal p hash current ≡ ok b
      → SideAnswer hash current b
  unfolding is_side_block_internal
  is_side_block-SideAnswer hash current b h =
      elim (if_cases (not (p.is_block_topological_ordered hash)) h) [
        | inl (u, r) ↦
            subst (SideAnswer hash current) (ok_injective refl r) (unordered (ground (arith, u)))
        | inr (u, r) ↦
            let (t, q, s) = >>=-eq-ok (p.get_topo_height_for_hash hash) _ r in
            elim (if_cases (t == 0 || ltb current t) s) [
              | inl (c, f) ↦
                  subst (SideAnswer hash current) (ok_injective refl f)
                    (outside t q (ground (arith, c)))
              | inr (c, f) ↦
                  let (n, k, g) = >>=-eq-ok (p.get_height_for_block_hash hash) _ f in
                  compared t n b (ground (arith, u)) q (ground (arith, c)) (ground (arith, c)) k
                    (side_loop-Below n stable_limit (t - 1) b g)
            ]
      ]
