-- ===== src/Block/Header/RoundTrip.antt =====
-- A header that the rules allow is read back from its bytes; others are refused.
use xelis_blockchain.Serializer.Reader.{bind-eq-ok}
use xelis_blockchain.Serializer.Trait.{from_bytes, to_bytes}
use native.Mathlib.Nat.{mod-eq_of_lt}
use xelis_blockchain.Prelude.{
  ℕ, ◌^◌, ◌≤◌, ◌<◌, ◌≡◌, sym, ◌∙◌, List, [], ◌∷◌, ◌++◌, append_assoc, append-nil, length, All,
  ge→ltb, arith, ◌*◌, ◌+◌, refl, ==_iff, length-append, ap, subst,
}
use xelis_blockchain.Prelude.Results.{ok}
use xelis_blockchain.Prelude.Equality.{bytes_eq, IsDistinct, contains_before}
use xelis_blockchain.Serializer.Bytes.{to_be_bytes, length-to_be_bytes}
use xelis_blockchain.Serializer.Writer
use xelis_blockchain.Serializer.Writer.{
  Writer, write_hash, write_u8, write_u16, write_u64, write_bytes,
}
use xelis_blockchain.Serializer.Reader
use xelis_blockchain.Serializer.Reader.Position.{
  at, read_u8_at, read_u16_at, read_hash_at, read_u64_at, read_bytes_32_at, read_array_at,
}
use xelis_blockchain.Serializer.Collections.Lossless.{IsU64}
use xelis_blockchain.Serializer.Collections.Tips.{IsHash}
use xelis_blockchain.Serializer.Writer
use xelis_blockchain.Serializer.Reader
use xelis_blockchain.Block.Header.{
  BlockHeader, concat, write_hashes, read_hashes, read_tips_set, read_txs_set, tips_limit,
  write_header, read_header_body, write_u8, write_u16, write_u64, write_bytes, arith, read_header,
  length-append, block_header, ap, subst,
}

-- What `read` accepts: version 0, at most three distinct tips, distinct transactions.
pub record IsReadable (h : BlockHeader) : Type 0 where
  pub version : h.version ≡ 0
  pub height : IsU64 h.height
  pub timestamp : IsU64 h.timestamp
  pub nonce : IsU64 h.nonce
  pub extra_nonce : IsHash h.extra_nonce
  pub miner : IsHash h.miner
  pub few_tips : length h.tips ≤ tips_limit
  pub tips : All IsHash h.tips
  pub distinct_tips : IsDistinct h.tips
  pub few_txs : length h.txs_hashes < 2 ^ 16
  pub txs : All IsHash h.txs_hashes
  pub distinct_txs : IsDistinct h.txs_hashes

write_hashes-bytes :
    (hs : List (List ℕ)) (w : Writer) → (write_hashes hs w).bytes ≡ w.bytes ++ concat hs
unfolding write_hashes concat write_hash
write_hashes-bytes [] w = sym (append-nil w.bytes)
write_hashes-bytes (h ∷ hs) w =
    write_hashes-bytes hs (write_hash h w) ∙ append_assoc w.bytes h (concat hs)

read_hashes_at :
    (hs acc : List (List ℕ)) (pre rest : List ℕ)
    → All IsHash hs
    → IsDistinct (acc ++ hs)
    → read_hashes (length hs) acc (at pre (concat hs ++ rest))
      ≡ (ok (acc ++ hs), at (pre ++ concat hs) rest)
unfolding read_hashes concat
read_hashes_at [] acc pre rest h d = simp append-nil
read_hashes_at (x ∷ xs) acc pre rest (h, hs) d =
    rw
      (
        append_assoc x (concat xs) rest,
        read_hash_at x pre (concat xs ++ rest) h,
        contains_before acc x xs d,
      )
      (rw (
        read_hashes_at xs (acc ++ x ∷ []) (pre ++ x) rest hs (rw append_assoc d),
        append_assoc pre x (concat xs),
        append_assoc acc (x ∷ []) xs,
      ))

read_tips_at :
    (hs : List (List ℕ)) (pre rest : List ℕ)
    → length hs ≤ tips_limit
    → All IsHash hs
    → IsDistinct hs
    → read_tips_set (at pre (length hs ∷ (concat hs ++ rest)))
      ≡ (ok hs, at (pre ++ length hs ∷ concat hs) rest)
unfolding read_tips_set
read_tips_at hs pre rest l h d =
    rw (read_u8_at (length hs) pre (concat hs ++ rest), ge→ltb tips_limit (length hs) l)
      (rw (
        read_hashes_at hs [] (pre ++ length hs ∷ []) rest h d,
        append_assoc pre (length hs ∷ []) (concat hs),
      ))

read_txs_at :
    (hs : List (List ℕ)) (pre rest : List ℕ)
    → length hs < 2 ^ 16
    → All IsHash hs
    → IsDistinct hs
    → read_txs_set (at pre (to_be_bytes 2 (length hs) ++ (concat hs ++ rest)))
      ≡ (ok hs, at (pre ++ (to_be_bytes 2 (length hs) ++ concat hs)) rest)
unfolding read_txs_set
read_txs_at hs pre rest l h d = rw (read_u16_at (length hs) pre (concat hs ++ rest) l) (
    rw (
      read_hashes_at hs [] (pre ++ to_be_bytes 2 (length hs)) rest h d,
      append_assoc pre (to_be_bytes 2 (length hs)) (concat hs),
    ))

-- The bytes of a header behind its version.
body : BlockHeader → List ℕ
body h =
    to_be_bytes 8 h.height
    ++ (to_be_bytes 8 h.timestamp
        ++ (to_be_bytes 8 h.nonce
            ++ (h.extra_nonce
                ++ (length h.tips
                    ∷ (concat h.tips
                        ++ (to_be_bytes 2 (length h.txs_hashes)
                            ++ (concat h.txs_hashes ++ h.miner)))))))

to_bytes-body :
    (h : BlockHeader) (w : Writer)
    → length h.tips ≤ tips_limit
    → (write_header h w).bytes ≡ w.bytes ++ h.version ∷ body h
unfolding write_header body write_u8 write_u16 write_u64 write_bytes
to_bytes-body h w l = simp (write_hashes-bytes, append_assoc) (rw (mod-eq_of_lt (few h l)) refl)
  where
    few : (h : BlockHeader) → length h.tips ≤ tips_limit → length h.tips < 256
    few h l = omega arith

read_body_at :
    (h : BlockHeader) (pre rest : List ℕ)
    → IsReadable h
    → read_header_body h.version (at pre (body h ++ rest)) ≡ (ok h, at (pre ++ body h) rest)
unfolding read_header_body body
read_body_at h pre rest r = simp append_assoc (
    rw (read_u64_at h.height _ _ r.height) (
      rw (read_u64_at h.timestamp _ _ r.timestamp) (
        rw (read_u64_at h.nonce _ _ r.nonce) (
          rw (read_bytes_32_at h.extra_nonce _ _ r.extra_nonce) (
            rw (read_tips_at h.tips _ _ r.few_tips r.tips r.distinct_tips) (
              rw (read_txs_at h.txs_hashes _ _ r.few_txs r.txs r.distinct_txs)
                (rw (read_array_at 32 _ h.miner _ r.miner) (simp append_assoc))))))))

read_header_at :
    (h : BlockHeader) (pre rest : List ℕ)
    → IsReadable h
    → read_header (at pre (h.version ∷ (body h ++ rest)))
      ≡ (ok h, at (pre ++ h.version ∷ body h) rest)
unfolding read_header
read_header_at h pre rest r =
    rw (read_u8_at h.version pre (body h ++ rest), (==_iff h.version 0).1 r.version)
      (rw (read_body_at h (pre ++ h.version ∷ []) rest r) (simp append_assoc))

length-concat : (hs : List (List ℕ)) → All IsHash hs → length (concat hs) ≡ length hs * 32
unfolding concat
length-concat [] a = omega arith
length-concat (h ∷ hs) (a, as') = omega (arith, length-append h (concat hs), length-concat hs as')

length-body :
    (h : BlockHeader)
    → IsReadable h
    → length (body h)
      ≡ 32 + (1 + length h.tips * 32) + (2 + length h.txs_hashes * 32) + 32 + 8 + 8 + 8
unfolding body
length-body h r = simp length-append (
    omega (
      arith,
      length-to_be_bytes 8 h.height,
      length-to_be_bytes 8 h.timestamp,
      length-to_be_bytes 8 h.nonce,
      length-to_be_bytes 2 (length h.txs_hashes),
      length-concat h.tips r.tips,
      length-concat h.txs_hashes r.txs,
      r.extra_nonce,
      r.miner,
    ))

-- A header of version 0 with u64 numbers, hashes and keys of 32 bytes, at most three distinct tips and less than 2 ^ 16 distinct transactions is read back from its bytes, and `size` is their number.
pub block_header_round_trip :
    (h : BlockHeader)
    → IsReadable h
    → (from_bytes block_header (to_bytes block_header h) ≡ ok h)
      × (block_header.size h ≡ length (to_bytes block_header h))
unfolding Writer.new Reader.new
block_header_round_trip h r = rw (to_bytes-body h Writer.new r.few_tips) (
  ap (λ p. p.0)
      (subst (λ bytes. read_header (at [] (h.version ∷ bytes)) ≡ (ok h, at (h.version ∷ body h) []))
        (append-nil (body h)) (read_header_at h [] [] r)),
  omega (arith, length-body h r),
)
