-- ===== src/Tests/Accounts.antt =====
-- Versions of nonces and balances at concrete inputs, over a curve whose points are their bytes.
use xelis_blockchain.Prelude.{
  ℕ, ◌+◌, ◌≡◌, refl, none, some, List, [], ◌∷◌, arith, length, replicate,
}
use xelis_blockchain.Prelude.Results.{ok, err}
use xelis_blockchain.Serializer.Reader.{invalid_size}
use xelis_blockchain.Serializer.Trait.{to_bytes, from_bytes}
use xelis_blockchain.Account.Cache.{
  ElGamal, CiphertextCache, CompressedCiphertext, compressed, decompressed, compress,
  take_ciphertext,
}
use xelis_blockchain.Account.Cache.Coherence.{
  Holds, call_all, meaning_all, call_all-Holds, modify, fill_compressed, fill_both, CacheCall,
}
use xelis_blockchain.Account.Balance
use xelis_blockchain.Account.Balance.{VersionedBalance, versioned_balance}
use xelis_blockchain.Account.Balance.Bytes.{
  versioned_balance_round_trip, versioned_balance_unreadable,
}

some_eq : (c e : CompressedCiphertext) → some c ≡ some e → e ≡ c
some_eq c e p = cc

-- Every pair of byte strings is a point here.
abbrev plain : ElGamal
plain = record {
  Ciphertext = CompressedCiphertext;
  compress = λ c. c;
  decompress = λ c. some c;
  compress-decompress = some_eq;
  decompress-compress = λ e. refl;
}

abbrev point : ℕ → CompressedCiphertext
point n = record { commitment = replicate 32 n; handle = replicate 32 (n + 1) }

abbrev calls : List (CacheCall plain)
calls = fill_both ∷ modify (λ _. point 9) ∷ fill_compressed ∷ []

abbrev cache : CiphertextCache plain
cache = compressed (point 4)

call_all-Holds_example :
    Holds plain (call_all plain calls cache) (meaning_all plain calls (point 4))
    × (compress plain (call_all plain calls cache) ≡ meaning_all plain calls (point 4))
call_all-Holds_example =
    call_all-Holds plain calls cache (point 4)
      (record { coherent = tt; value = unfold take_ciphertext in refl })

abbrev stored : VersionedBalance plain
stored = record {
  output_balance = some (decompressed (point 1));
  final_balance = compressed (point 2);
  balance_type = Balance.both;
  previous_topoheight = some 12;
}

versioned_balance_round_trip_example :
    (from_bytes (versioned_balance plain) (to_bytes (versioned_balance plain) stored)
      ≡ ok (record stored {
        final_balance = compressed (point 2);
        output_balance = some (compressed (point 1));
      }))
    × (137 ≡ length (to_bytes (versioned_balance plain) stored))
unfolding compress
versioned_balance_round_trip_example =
    versioned_balance_round_trip plain stored (omega arith) (omega arith) (omega arith)

abbrev torn : VersionedBalance plain
torn = record {
  output_balance = none;
  final_balance = compressed (point 2);
  balance_type = Balance.both;
  previous_topoheight = some 12;
}

versioned_balance_unreadable_example :
    from_bytes (versioned_balance plain) (to_bytes (versioned_balance plain) torn)
    ≡ err invalid_size
unfolding compress
versioned_balance_unreadable_example =
    versioned_balance_unreadable plain (compressed (point 2)) 12 (omega arith) (omega arith)
