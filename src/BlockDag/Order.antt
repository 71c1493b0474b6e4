-- ===== src/BlockDag/Order.antt =====
-- The comparison of the sort by descending difficulty is a strict total order of the scores.
use xelis_blockchain.Prelude.{ℕ, ◌≡◌, subst, inl, inr, Bool, true, false, arith, Bool-cases}
use xelis_blockchain.BlockDag.{Ord, descending}

-- What a sort relies on.
pub record IsOrder {A : Type 0} (before : A → A → Bool) : Type 0 where
  pub asym : (x y : A) → before x y ≡ true → before y x ≡ false
  -- what comes before `x` and not before `y` is such that `y` comes before `x`
  pub cotrans : (x y z : A) → before z x ≡ true → before z y ≡ false → before y x ≡ true
  pub total : (x y : A) → before x y ≡ false → before y x ≡ false → x ≡ y

module _ {K : Type 0} (o : Ord K) where
  pub lt_asym : (a b : K) → o.lt a b ≡ true → o.lt b a ≡ false
  lt_asym a b h = elim (Bool-cases (o.lt b a)) [
    | inl p ↦ cc (o.lt_trans a b a h p, o.lt_irrefl a)
    | inr p ↦ p
  ]

module _ {K : Type 0} ⦃o : Ord K⦄ where
  descending_asym :
      (a b : K) (m n : ℕ) → descending (a, m) (b, n) ≡ true → descending (b, n) (a, m) ≡ false
  unfolding descending
  descending_asym a b m n h = ground (arith, lt_asym o b a)

  descending_cotrans :
      (a b c : K) (m n k : ℕ)
      → descending (c, k) (a, m) ≡ true
      → descending (c, k) (b, n) ≡ false
      → descending (b, n) (a, m) ≡ true
  unfolding descending
  descending_cotrans a b c m n k h i = ground (arith, lt_rev a b c)
    where
      lt_rev : (a b c : K) → o.lt a c ≡ true → o.lt b c ≡ false → o.lt a b ≡ true
      lt_rev a b c h k = elim (Bool-cases (o.lt c b)) [
        | inl p ↦ o.lt_trans a c b h p
        | inr p ↦ subst (λ t. o.lt a t ≡ true) (o.lt_total c b p k) h
      ]

  descending_total :
      (a b : K) (m n : ℕ)
      → descending (a, m) (b, n) ≡ false
      → descending (b, n) (a, m) ≡ false
      → (a ≡ b) × (m ≡ n)
  unfolding descending
  descending_total a b m n h k = ground (arith, o.lt_total a b)

  pub descending-IsOrder : IsOrder (descending {K = K})
  descending-IsOrder = record {
    asym = λ x y. descending_asym x.0 y.0 x.1 y.1;
    cotrans = λ x y z. descending_cotrans x.0 y.0 z.0 x.1 y.1 z.1;
    total = λ x y h k. let (p, q) = descending_total x.0 y.0 x.1 y.1 h k in cc (p, q);
  }
