-- ===== src/Account/Nonce.antt =====
-- xelis_common/src/account/nonce.rs: a nonce with the topoheight of the version before it.
use xelis_blockchain.Prelude.{
  ℕ, ◌+◌, ◌≡◌, sym, ap, Option, none, some, List, [], ◌++◌, arith, ◌==◌, if◌then◌else◌, length,
  length-append,
}
use xelis_blockchain.Serializer.Bytes.{to_be_bytes, length-to_be_bytes}
use xelis_blockchain.Serializer.Writer
use xelis_blockchain.Serializer.Writer.{Writer, write_u64}
use xelis_blockchain.Serializer.Reader
use xelis_blockchain.Serializer.Reader.{Read, ◌>>=◌, pure, size, read_u64}
use xelis_blockchain.Serializer.Reader.Position.{at, read_u64_at, size-at, at_end}
use xelis_blockchain.Serializer.Trait.{Serializer, to_bytes, from_bytes}
use xelis_blockchain.Serializer.Collections.Lossless.{IsU64}
use xelis_blockchain.Prelude.Results.{ok}

pub record VersionedNonce : Type 0 where
  pub nonce : ℕ
  pub previous_topoheight : Option ℕ

write_previous : Option ℕ → Writer → Writer
write_previous (some topo) w = write_u64 topo w
write_previous none w = w

unfoldable pub write_nonce : VersionedNonce → Writer → Writer
unfolding write_previous
write_nonce v w = write_previous v.previous_topoheight (write_u64 v.nonce w)

-- What is left of the bytes says whether there is a previous version.
unfoldable pub read_previous : Read (Option ℕ)
read_previous r = if size r == 0 then pure none r else (do topo ← read_u64; pure (some topo)) r

unfoldable pub read_nonce : Read VersionedNonce
read_nonce = do
  nonce ← read_u64
  previous_topoheight ← read_previous
  pure (record { nonce = nonce; previous_topoheight = previous_topoheight })

abbrev previous_size : Option ℕ → ℕ
previous_size (some topo) = 8
previous_size none = 0

abbrev pub versioned_nonce : Serializer VersionedNonce
versioned_nonce = record {
  write = write_nonce;
  read = read_nonce;
  size = λ v. 8 + previous_size v.previous_topoheight;
}

-- A version of u64 values.
abbrev pub IsPrevious : Option ℕ → Type 0
IsPrevious none = Unit {0}
IsPrevious (some topo) = IsU64 topo

read_previous_end : (pre : List ℕ) → read_previous (at pre []) ≡ (ok none, at pre [])
unfolding read_previous
read_previous_end pre = rw (size-at pre [])

read_previous_at :
    (topo : ℕ) (pre : List ℕ)
    → IsU64 topo
    → read_previous (at pre (to_be_bytes 8 topo))
      ≡ (ok (some topo), at (pre ++ to_be_bytes 8 topo) [])
unfolding read_previous
read_previous_at topo pre h =
    rw (size-at pre (to_be_bytes 8 topo), length-to_be_bytes 8 topo)
      (rw (at_end read_u64 pre (to_be_bytes 8 topo) (read_u64_at topo pre [] h)))

read_nonce_first :
    (nonce : ℕ) (pre : List ℕ)
    → IsU64 nonce
    → read_nonce (at pre (to_be_bytes 8 nonce)) ≡ (
      ok (record { nonce = nonce; previous_topoheight = none }),
      at (pre ++ to_be_bytes 8 nonce) [],
    )
unfolding read_nonce
read_nonce_first nonce pre h = rw (
  at_end read_u64 pre (to_be_bytes 8 nonce) (read_u64_at nonce pre [] h),
  read_previous_end (pre ++ to_be_bytes 8 nonce),
)

read_nonce_next :
    (nonce topo : ℕ) (pre : List ℕ)
    → IsU64 nonce
    → IsU64 topo
    → (read_nonce (at pre (to_be_bytes 8 nonce ++ to_be_bytes 8 topo))).0
      ≡ ok (record { nonce = nonce; previous_topoheight = some topo })
unfolding read_nonce
read_nonce_next nonce topo pre h k = rw (
  read_u64_at nonce pre (to_be_bytes 8 topo) h,
  read_previous_at topo (pre ++ to_be_bytes 8 nonce) k,
)

-- A version of a nonce, with a previous topoheight or without, is read back from its bytes, and `size` is their number.
pub versioned_nonce_round_trip :
    (nonce : ℕ) (previous : Option ℕ)
    → IsU64 nonce
    → IsPrevious previous
    → let v : VersionedNonce = record { nonce = nonce; previous_topoheight = previous } in
      (from_bytes versioned_nonce (to_bytes versioned_nonce v) ≡ ok v)
      × (versioned_nonce.size v ≡ length (to_bytes versioned_nonce v))
unfolding Writer.new Reader.new write_nonce write_u64
versioned_nonce_round_trip nonce none h k =
    (ap (λ p. p.0) (read_nonce_first nonce [] h), sym (length-to_be_bytes 8 nonce))
versioned_nonce_round_trip nonce (some topo) h k = (
  read_nonce_next nonce topo [] h k,
  omega (
    arith,
    length-append (to_be_bytes 8 nonce) (to_be_bytes 8 topo),
    length-to_be_bytes 8 nonce,
    length-to_be_bytes 8 topo,
  ),
)
