-- ===== src/Account/Balance/Bytes.antt =====
-- Which balances are read back from their bytes, and which are not.
use xelis_blockchain.Prelude.{
  ℕ, ◌-◌, ◌≡◌, refl, Option, none, some, List, [], ◌∷◌, ◌++◌, append_assoc, append-nil, arith,
  length, length-append, lt→ltb,
}
use xelis_blockchain.Prelude.Results.{ok, err}
use xelis_blockchain.Serializer.Bytes.{to_be_bytes, length-to_be_bytes}
use xelis_blockchain.Serializer.Writer
use xelis_blockchain.Serializer.Writer.{Writer, write_u8, write_u64, write_bytes}
use xelis_blockchain.Serializer.Reader
use xelis_blockchain.Serializer.Reader.{
  Read, ◌>>=◌, pure, fail, size, read_u8, read_u64, invalid_value, invalid_size, read_bytes,
}
use xelis_blockchain.Serializer.Reader.Position.{
  at, at_end, size-at, read_u8_at, read_u64_at, read_array_at,
}
use xelis_blockchain.Serializer.Trait.{to_bytes, from_bytes}
use xelis_blockchain.Serializer.Collections.Lossless.{IsU64}
use xelis_blockchain.Account.Nonce.{IsPrevious}
use xelis_blockchain.Account.Cache.{
  ElGamal, CiphertextCache, CompressedCiphertext, compressed, compress, write_compressed,
  read_compressed,
}
use xelis_blockchain.Account.Balance.{
  BalanceType, input, output, both, tag, write_type, read_type, VersionedBalance, write_balance,
  read_cache, read_topoheight, read_rest, read_balance, versioned_balance, topoheight_size,
  output_size,
}

read_type_at :
    (t : BalanceType) (pre rest : List ℕ)
    → read_type (at pre (tag t ∷ rest)) ≡ (ok t, at (pre ++ tag t ∷ []) rest)
unfolding read_type
read_type_at input pre rest = rw (read_u8_at 0 pre rest)
read_type_at output pre rest = rw (read_u8_at 1 pre rest)
read_type_at both pre rest = rw (read_u8_at 2 pre rest)

-- A compressed point has 32 bytes.
pub record IsCompressed (c : CompressedCiphertext) : Type 0 where
  pub commitment : length c.commitment ≡ 32
  pub handle : length c.handle ≡ 32

read_compressed_at :
    (c : CompressedCiphertext) (pre rest : List ℕ)
    → IsCompressed c
    → read_compressed (at pre ((c.commitment ++ c.handle) ++ rest))
      ≡ (ok c, at (pre ++ (c.commitment ++ c.handle)) rest)
unfolding read_compressed
read_compressed_at c pre rest h = rw (append_assoc c.commitment c.handle rest) (
    rw (
      read_array_at 32 pre c.commitment (c.handle ++ rest) h.commitment,
      read_array_at 32 (pre ++ c.commitment) c.handle rest h.handle,
      append_assoc pre c.commitment c.handle,
    ))

map_ok {ℓ κ} :
    {A : Type ℓ} {B : Type κ} (m : Read A) (f : A → B) (r : Reader.Reader) {a : A}
    → (m r).0 ≡ ok a
    → ((m >>= λ x. pure (f x)) r).0 ≡ ok (f a)
map_ok m f r h = rw h

module _ (g : ElGamal) where
  bytes_of : CiphertextCache g → List ℕ
  bytes_of c = (compress g c).commitment ++ (compress g c).handle

  abbrev pub IsPoint : CiphertextCache g → Type 0
  IsPoint c = IsCompressed (compress g c)

  read_cache_at :
      (c : CiphertextCache g) (pre rest : List ℕ)
      → IsPoint c
      → read_cache g (at pre (bytes_of c ++ rest))
        ≡ (ok (compressed (compress g c)), at (pre ++ bytes_of c) rest)
  unfolding read_cache bytes_of
  read_cache_at c pre rest h = rw (read_compressed_at (compress g c) pre rest h)

  length-bytes_of : (c : CiphertextCache g) → IsPoint c → length (bytes_of c) ≡ 64
  unfolding bytes_of
  length-bytes_of c h =
      omega (
        arith,
        length-append (compress g c).commitment (compress g c).handle,
        h.commitment,
        h.handle,
      )

  topo_bytes : Option ℕ → List ℕ
  topo_bytes none = []
  topo_bytes (some t) = to_be_bytes 8 t

  output_bytes : Option (CiphertextCache g) → List ℕ
  output_bytes none = []
  output_bytes (some c) = bytes_of c

  -- A balance has an output balance exactly when its type says that it has both.
  abbrev pub IsStorable : BalanceType → Option (CiphertextCache g) → Type 0
  IsStorable input none = Unit {0}
  IsStorable output none = Unit {0}
  IsStorable both (some c) = IsPoint c
  IsStorable _ _ = ⊥

  abbrev pub compress_output : Option (CiphertextCache g) → Option (CiphertextCache g)
  compress_output none = none
  compress_output (some c) = some (compressed (compress g c))

  read_rest_at :
      (t : BalanceType) (prev : Option ℕ) (out : Option (CiphertextCache g)) (pre : List ℕ)
      → IsPrevious prev
      → IsStorable t out
      → (read_rest g t (at pre (topo_bytes prev ++ output_bytes out))).0
        ≡ ok (prev, compress_output out)
  unfolding read_rest read_topoheight topo_bytes output_bytes
  read_rest_at input none none pre p s = rw (size-at pre [])
  read_rest_at output none none pre p s = rw (size-at pre [])
  read_rest_at input (some t) none pre p s =
      rw (append-nil (to_be_bytes 8 t), size-at pre (to_be_bytes 8 t), length-to_be_bytes 8 t)
        (rw (at_end read_u64 pre (to_be_bytes 8 t) (read_u64_at t pre [] p)))
  read_rest_at output (some t) none pre p s =
      rw (append-nil (to_be_bytes 8 t), size-at pre (to_be_bytes 8 t), length-to_be_bytes 8 t)
        (rw (at_end read_u64 pre (to_be_bytes 8 t) (read_u64_at t pre [] p)))
  read_rest_at both none (some c) pre p s =
      rw (size-at pre (bytes_of c), length-bytes_of c s)
        (rw (at_end (read_cache g) pre (bytes_of c) (read_cache_at c pre [] s)))
  read_rest_at both (some t) (some c) pre p s =
      rw
        (
          size-at pre (to_be_bytes 8 t ++ bytes_of c),
          length-append (to_be_bytes 8 t) (bytes_of c),
          length-to_be_bytes 8 t,
          length-bytes_of c s,
        )
        (rw (
          read_u64_at t pre (bytes_of c) p,
          at_end (read_cache g) (pre ++ to_be_bytes 8 t) (bytes_of c)
              (read_cache_at c (pre ++ to_be_bytes 8 t) [] s),
        ))
  read_rest_at input none (some c) pre p s = elim s [ ]
  read_rest_at input (some t) (some c) pre p s = elim s [ ]
  read_rest_at output none (some c) pre p s = elim s [ ]
  read_rest_at output (some t) (some c) pre p s = elim s [ ]
  read_rest_at both none none pre p s = elim s [ ]
  read_rest_at both (some t) none pre p s = elim s [ ]

  encoding : VersionedBalance g → List ℕ
  encoding b =
      bytes_of b.final_balance
      ++ tag b.balance_type ∷ (topo_bytes b.previous_topoheight ++ output_bytes b.output_balance)

  to_bytes-encoding :
      (f : CiphertextCache g) (t : BalanceType) (prev : Option ℕ) (out : Option (CiphertextCache g))
      → let b : VersionedBalance g = record {
        output_balance = out;
        final_balance = f;
        balance_type = t;
        previous_topoheight = prev;
      } in
        to_bytes (versioned_balance g) b ≡ encoding b
  unfolding Writer.new write_balance write_compressed write_bytes write_type write_u8 write_u64
      encoding bytes_of topo_bytes output_bytes
  to_bytes-encoding f t none none = simp (append_assoc, append-nil)
  to_bytes-encoding f t none (some c) = simp append_assoc
  to_bytes-encoding f t (some p) none = simp (append_assoc, append-nil)
  to_bytes-encoding f t (some p) (some c) = simp append_assoc

  read_balance_at :
      (b : VersionedBalance g) (pre : List ℕ)
      → IsPoint b.final_balance
      → IsPrevious b.previous_topoheight
      → IsStorable b.balance_type b.output_balance
      → (read_balance g (at pre (encoding b))).0
        ≡ ok (record b {
          final_balance = compressed (compress g b.final_balance);
          output_balance = compress_output b.output_balance;
        })
  unfolding read_balance encoding
  read_balance_at b pre f p s =
      rw
        (
          read_cache_at b.final_balance pre
              (tag b.balance_type
                ∷ (topo_bytes b.previous_topoheight ++ output_bytes b.output_balance))
              f,
          read_type_at b.balance_type (pre ++ bytes_of b.final_balance)
              (topo_bytes b.previous_topoheight ++ output_bytes b.output_balance),
        )
        (map_ok (read_rest g b.balance_type)
          (λ x. record b {
            final_balance = compressed (compress g b.final_balance);
            output_balance = x.1;
            previous_topoheight = x.0;
          })
          _ (read_rest_at b.balance_type b.previous_topoheight b.output_balance _ p s))

  length-topo_bytes : (prev : Option ℕ) → length (topo_bytes prev) ≡ topoheight_size g prev
  unfolding topo_bytes
  length-topo_bytes none = refl
  length-topo_bytes (some t) = length-to_be_bytes 8 t

  length-output_bytes :
      (t : BalanceType) (out : Option (CiphertextCache g))
      → IsStorable t out
      → length (output_bytes out) ≡ output_size g out
  unfolding output_bytes
  length-output_bytes t none s = refl
  length-output_bytes input (some c) s = elim s [ ]
  length-output_bytes output (some c) s = elim s [ ]
  length-output_bytes both (some c) s = length-bytes_of c s

  read_compressed_short : (pre : List ℕ) → read_cache g (at pre []) ≡ (err invalid_size, at pre [])
  unfolding read_cache read_compressed read_bytes
  read_compressed_short pre =
      rw (append-nil pre) (rw (lt→ltb (length pre - length pre) 32 (omega arith)))

  read_rest_cut :
      (topo : ℕ) (pre : List ℕ)
      → IsU64 topo
      → (read_rest g both (at pre (to_be_bytes 8 topo))).0 ≡ err invalid_size
  unfolding read_rest read_topoheight
  read_rest_cut topo pre p =
      rw (size-at pre (to_be_bytes 8 topo), length-to_be_bytes 8 topo)
        (rw (
          at_end read_u64 pre (to_be_bytes 8 topo) (read_u64_at topo pre [] p),
          read_compressed_short (pre ++ to_be_bytes 8 topo),
        ))

  read_balance_cut :
      (f : CiphertextCache g) (topo : ℕ)
      → IsPoint f
      → IsU64 topo
      → (read_balance g (
          at [] (
            encoding (record {
              output_balance = none;
              final_balance = f;
              balance_type = both;
              previous_topoheight = some topo;
            })))).0
        ≡ err invalid_size
  unfolding read_balance encoding topo_bytes output_bytes
  read_balance_cut f topo h p = rw (append-nil (to_be_bytes 8 topo)) (
      rw
        (
          read_cache_at f [] (2 ∷ to_be_bytes 8 topo) h,
          read_type_at both (bytes_of f) (to_be_bytes 8 topo),
        )
        (rw (read_rest_cut topo (bytes_of f ++ 2 ∷ []) p)))

  -- A balance with u64 topoheights and points of 32 bytes, which has an output balance exactly when its type says both, is read back from its bytes with its ciphertexts in compressed form, and `size` is the number of the bytes.
  pub versioned_balance_round_trip :
      (b : VersionedBalance g)
      → IsPoint b.final_balance
      → IsPrevious b.previous_topoheight
      → IsStorable b.balance_type b.output_balance
      → (from_bytes (versioned_balance g) (to_bytes (versioned_balance g) b)
          ≡ ok (record b {
            final_balance = compressed (compress g b.final_balance);
            output_balance = compress_output b.output_balance;
          }))
        × ((versioned_balance g).size b ≡ length (to_bytes (versioned_balance g) b))
  unfolding Reader.new encoding
  versioned_balance_round_trip b f p s =
      rw (to_bytes-encoding b.final_balance b.balance_type b.previous_topoheight b.output_balance) (
        read_balance_at b [] f p s,
        omega (
          arith,
          length-append (bytes_of b.final_balance) (
              tag b.balance_type
              ∷ (topo_bytes b.previous_topoheight ++ output_bytes b.output_balance)),
          length-bytes_of b.final_balance f,
          length-append (topo_bytes b.previous_topoheight) (output_bytes b.output_balance),
          length-topo_bytes b.previous_topoheight,
          length-output_bytes b.balance_type b.output_balance s,
        ),
      )

  -- A balance with points of 32 bytes whose type says both, with a previous version at a u64 topoheight and no output balance, is written and cannot be read.
  pub versioned_balance_unreadable :
      (f : CiphertextCache g) (topo : ℕ)
      → IsPoint f
      → IsU64 topo
      → let b : VersionedBalance g = record {
        output_balance = none;
        final_balance = f;
        balance_type = both;
        previous_topoheight = some topo;
      } in
        from_bytes (versioned_balance g) (to_bytes (versioned_balance g) b) ≡ err invalid_size
  unfolding Reader.new
  versioned_balance_unreadable f topo h p =
      rw (to_bytes-encoding f both (some topo) none) (read_balance_cut f topo h p)
