-- ===== src/Block/Header/Sound.antt =====
-- What every header that is read satisfies, whatever the bytes.
use xelis_blockchain.Prelude.{
  ℕ, zero, suc, ◌+◌, ◌≤◌, ◌≡◌, subst, List, [], ◌∷◌, ◌++◌, arith, ltb, ◌==◌, length, length-append,
  ==_iff,
}
use xelis_blockchain.Prelude.Results.{ok}
use xelis_blockchain.Prelude.Equality.{bytes_eq, contains, IsDistinct, IsDistinct-append}
use xelis_blockchain.Serializer.Reader
use xelis_blockchain.Serializer.Reader.{
  Read, pure, fail, invalid_value, read_u8, read_u16, read_u64, read_bytes_32, read_hash,
  read_bytes, array,
}
use xelis_blockchain.Serializer.Reader.Outcome.{
  Ensures, Ensures-pure, Ensures-fail, Ensures-if, Ensures-then, Ensures-bind,
}
use xelis_blockchain.Block.Header.{
  BlockHeader, read_hashes, read_tips_set, read_txs_set, read_header_body, read_header, tips_limit,
}

-- A set that extends `acc` by `n` elements, none of them twice.
abbrev IsSetOf : ℕ → List (List ℕ) → Type 0
IsSetOf n hs = IsDistinct hs × (length hs ≡ n)

read_hashes-Ensures :
    (n : ℕ) (acc : List (List ℕ))
    → IsDistinct acc
    → Ensures (IsSetOf (length acc + n)) (read_hashes n acc)
unfolding read_hashes
read_hashes-Ensures zero acc d = Ensures-pure acc (d, omega arith)
read_hashes-Ensures (suc n) acc d = Ensures-then read_hash _ λ x.
    Ensures-if (contains x acc) _ _ (λ _. Ensures-fail invalid_value)
      λ fresh.
        subst (λ k. Ensures (IsSetOf k) (read_hashes n (acc ++ x ∷ [])))
          (omega (arith, length-append acc (x ∷ [])))
          (read_hashes-Ensures n (acc ++ x ∷ []) (IsDistinct-append acc x d fresh))

abbrev IsFewTips : List (List ℕ) → Type 0
IsFewTips hs = IsDistinct hs × (length hs ≤ tips_limit)

read_set-Ensures : Ensures IsFewTips read_tips_set
unfolding read_tips_set
read_set-Ensures = Ensures-then read_u8 _ λ n.
    Ensures-if (ltb tips_limit n) _ _ (λ _. Ensures-fail invalid_value)
      λ few. record {
        value = λ r hs e.
            let (d, l) = (read_hashes-Ensures n [] tt).value r hs e in (d, ground (arith, l));
      }

read_txs-Ensures : Ensures (λ hs. IsDistinct hs) read_txs_set
unfolding read_txs_set
read_txs-Ensures =
    Ensures-then read_u16 _
      λ n. record { value = λ r hs e. ((read_hashes-Ensures n [] tt).value r hs e).0 }

-- What the rules ask of the version and of the sets of a header.
pub record IsWellFormed (h : BlockHeader) : Type 0 where
  pub version : h.version ≡ 0
  pub few_tips : length h.tips ≤ tips_limit
  pub distinct_tips : IsDistinct h.tips
  pub distinct_txs : IsDistinct h.txs_hashes

read_body-Ensures : (v : ℕ) → v ≡ 0 → Ensures IsWellFormed (read_header_body v)
unfolding read_header_body
read_body-Ensures v z = Ensures-then read_u64 _ λ _. Ensures-then read_u64 _ λ _.
    Ensures-then read_u64 _ λ _. Ensures-then read_bytes_32 _ λ _.
      Ensures-bind IsFewTips read_tips_set _ read_set-Ensures λ ts t.
        Ensures-bind (λ hs. IsDistinct hs) read_txs_set _ read_txs-Ensures
          λ xs x. Ensures-then (read_bytes (array 32) 32) _ λ m.
            Ensures-pure _
              (record { version = z; few_tips = t.1; distinct_tips = t.0; distinct_txs = x })

-- Whatever the bytes, a header that `read` returns has version 0, at most three tips, and no tip and no transaction twice.
pub read_header_sound :
    (r : Reader.Reader) (h : BlockHeader) → (read_header r).0 ≡ ok h → IsWellFormed h
unfolding read_header
read_header_sound r h e = sound.value r h e
  where
    sound : Ensures IsWellFormed read_header
    sound = Ensures-then read_u8 _ λ v.
        Ensures-if (v == 0) _ _ (λ z. read_body-Ensures v ((==_iff v 0).0 z))
          (λ _. Ensures-fail invalid_value)
