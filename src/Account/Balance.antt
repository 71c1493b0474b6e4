-- ===== src/Account/Balance.antt =====
-- xelis_common/src/account/balance.rs: a balance with the topoheight of the version before it.
pub mod Bytes
use xelis_blockchain.Prelude.{
  ℕ, zero, suc, ◌+◌, ◌-◌, ◌*◌, ◌/◌, ◌%◌, ◌^◌, ◌≤◌, ◌<◌, ◌≡◌, refl, sym, ap, ◌∙◌, subst, ◌≢◌, ◌↔◌,
  ◌⊎◌, inl, inr, Bool, true, false, not, ◌&&◌, ◌||◌, Option, none, some, List, [], ◌∷◌, ◌++◌, map,
  append_assoc, append-nil, arith, ltb, leb, ◌==◌, if◌then◌else◌, Bool-cases, Option-cases, length,
  get_elem?, take, drop, All, length-append,
}
use xelis_blockchain.Prelude.Results.{Result, ok, err}
use xelis_blockchain.Serializer.Writer.{Writer, write_u8, write_u64}
use xelis_blockchain.Serializer.Reader.{
  Read, ◌>>=◌, pure, fail, size, read_u8, read_u64, invalid_value,
}
use xelis_blockchain.Account.Cache.{
  ElGamal, CiphertextCache, compressed, computable, compress, write_compressed, read_compressed,
  DecompressionError,
}
use xelis_blockchain.Serializer.Trait.{Serializer}

pub data BalanceType : Type 0 where
  input output both : BalanceType

abbrev pub tag : BalanceType → ℕ
tag input = 0
tag output = 1
tag both = 2

unfoldable pub write_type : BalanceType → Writer → Writer
write_type t = write_u8 (tag t)

unfoldable pub read_type : Read BalanceType
read_type = do
  byte ← read_u8
  if byte == 0
      then pure input
      else if byte == 1
      then pure output
      else if byte == 2
      then pure both
      else fail invalid_value

abbrev pub is_both : BalanceType → Bool
is_both input = false
is_both output = false
is_both both = true

module _ (g : ElGamal) where
  pub record VersionedBalance : Type 0 where
    pub output_balance : Option (CiphertextCache g)
    pub final_balance : CiphertextCache g
    pub balance_type : BalanceType
    pub previous_topoheight : Option ℕ

  unfoldable pub new : CiphertextCache g → Option ℕ → VersionedBalance
  new final_balance previous_topoheight = record {
    output_balance = none;
    final_balance = final_balance;
    balance_type = input;
    previous_topoheight = previous_topoheight;
  }

  unfoldable pub prepare_new : Option ℕ → VersionedBalance → VersionedBalance
  prepare_new previous_topoheight b = record b {
    previous_topoheight = previous_topoheight;
    output_balance = none;
    balance_type = input;
  }

  choose : Option (CiphertextCache g) → Bool → CiphertextCache g → CiphertextCache g
  choose (some balance) true final = balance
  choose (some balance) false final = final
  choose none wanted final = final

  unfoldable pub take_balance_with : Bool → VersionedBalance → CiphertextCache g
  unfolding choose
  take_balance_with wanted b = choose b.output_balance wanted b.final_balance

  unfoldable pub set_output_balance :
      Option (CiphertextCache g) → VersionedBalance → VersionedBalance
  set_output_balance value b = record b { output_balance = value }

  unfoldable pub set_balance_type : BalanceType → VersionedBalance → VersionedBalance
  set_balance_type t b = record b { balance_type = t }

  write_cache : CiphertextCache g → Writer → Writer
  write_cache c = write_compressed (compress g c)

  write_topoheight : Option ℕ → Writer → Writer
  write_topoheight (some topo) w = write_u64 topo w
  write_topoheight none w = w

  write_output : Option (CiphertextCache g) → Writer → Writer
  unfolding write_cache
  write_output (some c) w = write_cache c w
  write_output none w = w

  unfoldable pub write_balance : VersionedBalance → Writer → Writer
  unfolding write_output write_topoheight write_cache
  write_balance b w = write_output b.output_balance (
      write_topoheight b.previous_topoheight
        (write_type b.balance_type (write_cache b.final_balance w)))

  read_cache : Read (CiphertextCache g)
  read_cache = do c ← read_compressed; pure (compressed c)

  read_topoheight : BalanceType → Read (Option ℕ)
  read_topoheight t r =
      if size r == 8 || (is_both t && size r == 72)
      then (do topo ← read_u64; pure (some topo)) r
      else pure none r

  -- The bytes that are left, and the type, say which of the optional parts follow.
  read_rest : BalanceType → Read (Option ℕ × Option (CiphertextCache g))
  unfolding read_topoheight read_cache
  read_rest t r =
      if size r == 0
      then pure (none, none) r
      else (do
        previous_topo ← read_topoheight t
        if is_both t
            then (do c ← read_cache; pure (previous_topo, some c))
            else pure (previous_topo, none))
          r

  unfoldable pub read_balance : Read VersionedBalance
  unfolding read_cache read_rest
  read_balance = do
    final_balance ← read_cache
    balance_type ← read_type
    (previous_topoheight, output_balance) ← read_rest balance_type
    pure (record {
      output_balance = output_balance;
      final_balance = final_balance;
      balance_type = balance_type;
      previous_topoheight = previous_topoheight;
    })

  abbrev topoheight_size : Option ℕ → ℕ
  topoheight_size (some _) = 8
  topoheight_size none = 0

  abbrev output_size : Option (CiphertextCache g) → ℕ
  output_size (some _) = 64
  output_size none = 0

  abbrev pub versioned_balance : Serializer VersionedBalance
  versioned_balance = record {
    write = write_balance;
    read = read_balance;
    size = λ b. 64 + 1 + topoheight_size b.previous_topoheight + output_size b.output_balance;
  }
