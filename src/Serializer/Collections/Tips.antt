-- ===== src/Serializer/Collections/Tips.antt =====
-- The tips of the chain as the storage keeps them: a set of hashes with no count in front.
use xelis_blockchain.Prelude.Results.{ok}
use xelis_blockchain.Serializer.Reader.Position.{at, read_hash_at}
use xelis_blockchain.Prelude.Equality.{IsDistinct, contains_before}
use xelis_blockchain.Serializer.Reader.{total_size}
use xelis_blockchain.Serializer.Writer.{write_hash, Writer}
use xelis_blockchain.Prelude.Equality.{bytes_eq, IsDistinct}
use xelis_blockchain.Prelude.{
  refl, ℕ, List, length, ◌∷◌, All, ◌≡◌, ◌++◌, sym, ◌*◌, arith, append-nil, [], length-append, ◌∙◌,
  append_assoc, ◌%◌, ◌==◌, true, ◌/◌, ==_iff,
}
use xelis_blockchain.Serializer.Trait.{to_bytes, from_bytes}
use xelis_blockchain.Serializer.Collections.{
  tips, write_tips, insert_hash, read_tips_loop, read_tips_counted, read_tips, hash_size,
  write_hash, total_size, Writer, ok,
}
use xelis_blockchain.Serializer.Writer
use xelis_blockchain.Serializer.Reader

abbrev pub IsHash : List ℕ → Type 0
IsHash h = length h ≡ 32

concat : List (List ℕ) → List ℕ
concat [] = []
concat (h ∷ hs) = h ++ concat hs

length-concat : (hs : List (List ℕ)) → All IsHash hs → length (concat hs) ≡ length hs * 32
unfolding concat
length-concat [] a = omega arith
length-concat (h ∷ hs) (a, as') = omega (arith, length-append h (concat hs), length-concat hs as')

write_tips-bytes :
    (hs : List (List ℕ)) (w : Writer) → (write_tips hs w).bytes ≡ w.bytes ++ concat hs
unfolding write_tips concat write_hash
write_tips-bytes [] w = sym (append-nil w.bytes)
write_tips-bytes (h ∷ hs) w =
    write_tips-bytes hs (write_hash h w) ∙ append_assoc w.bytes h (concat hs)

read_tips_loop_at :
    (hs acc : List (List ℕ)) (pre : List ℕ)
    → All IsHash hs
    → IsDistinct (acc ++ hs)
    → read_tips_loop (length hs) acc (at pre (concat hs))
      ≡ (ok (acc ++ hs), at (pre ++ concat hs) [])
unfolding read_tips_loop concat insert_hash
read_tips_loop_at [] acc pre h d = simp append-nil
read_tips_loop_at (x ∷ xs) acc pre (h, hs) d =
    rw (read_hash_at x pre (concat xs) h, contains_before acc x xs d)
      (rw (
        read_tips_loop_at xs (acc ++ x ∷ []) (pre ++ x) hs (rw append_assoc d),
        append_assoc pre x (concat xs),
        append_assoc acc (x ∷ []) xs,
      ))

read_tips-concat :
    (hs : List (List ℕ)) → All IsHash hs → IsDistinct hs → (read_tips (at [] (concat hs))).0 ≡ ok hs
unfolding read_tips read_tips_counted total_size
read_tips-concat hs h d = rw (length-concat hs h) (
    rw (whole (length hs), count (length hs))
      (rw (read_tips_loop_at hs [] [] h d) (rw (==_iff (length hs) (length hs)).1 refl)))
  where
    whole : (n : ℕ) → (n * 32 % hash_size == 0) ≡ true
    whole n = ground arith

    count : (n : ℕ) → n * 32 / hash_size ≡ n
    count n = omega arith

-- Any set of distinct hashes of 32 bytes is read back from what was written, in the order of the writing.
pub tips_round_trip :
    (hs : List (List ℕ))
    → All IsHash hs
    → IsDistinct hs
    → from_bytes tips (to_bytes tips hs) ≡ ok hs
unfolding Writer.new Reader.new
tips_round_trip hs h d = rw write_tips-bytes (read_tips-concat hs h d)
