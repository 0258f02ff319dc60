-- ===== src/Router/Checksum/Rfc.antt =====
-- The checksum of RFC 1071 over big-endian words, and `ip_checksum` of tema1/skel.c against it.
use protocoale_de_comunicati.Common.{
  ℕ, zero, suc, ◌+◌, ◌-◌, ◌*◌, ◌%◌, ◌^◌, ◌<◌, ◌≤◌, ◌≡◌, ap, ◌∙◌, List, [], ◌∷◌, arith, length,
  htons, ◌==◌, if◌then◌else◌,
}
use protocoale_de_comunicati.Router.Checksum.{
  word32, add64, sum_blocks, sum_from_offset, fold, swap_bytes, ip_checksum,
}
use protocoale_de_comunicati.Router.Checksum.Fold.{
  ones_complement, fold-ones_complement, ones_complement_mod,
}

abbrev pub AreBytes : List ℕ → Type 0
AreBytes [] = Unit {0}
AreBytes (b ∷ bs) = (b < 256) × AreBytes bs

-- The sum of the 16-bit words, first byte highest; an odd byte at the end is padded with a zero.
unfoldable pub word_sum : List ℕ → ℕ
word_sum [] = 0
word_sum (a ∷ []) = a * 256
word_sum (a ∷ b ∷ bs) = a * 256 + b + word_sum bs

unfoldable pub rfc_checksum : List ℕ → ℕ
rfc_checksum bs = 65535 - ones_complement (word_sum bs)

-- The 32-bit sums are the 16-bit sums, one's complement.
sum_blocks_mod :
    (acc : ℕ) (bs : List ℕ)
    → AreBytes bs
    → acc + length bs * 2 ^ 32 < 2 ^ 64
    → (sum_blocks acc bs % 65535 ≡ (acc + word_sum bs) % 65535)
      × (acc ≤ sum_blocks acc bs)
      × (sum_blocks acc bs < 2 ^ 64)
unfolding sum_blocks word_sum
sum_blocks_mod acc [] ok room = omega arith
sum_blocks_mod acc (a ∷ []) ok room = omega arith
sum_blocks_mod acc (a ∷ b ∷ []) ok room = omega arith
sum_blocks_mod acc (a ∷ b ∷ c ∷ []) ok room = omega arith
sum_blocks_mod acc (a ∷ b ∷ c ∷ d ∷ bs) (ha, (hb, (hc, (hd, ok)))) room =
    omega (arith, sum_blocks_mod (add64 acc (word32 a b c d)) bs ok (omega arith))

-- A byte in front moves every other byte to the other half of its word, which is a product with 256.
word_sum_shift : (a : ℕ) (bs : List ℕ) → 256 * word_sum (a ∷ bs) % 65535 ≡ (a + word_sum bs) % 65535
unfolding word_sum
word_sum_shift a [] = omega arith
word_sum_shift a (b ∷ []) = omega arith
word_sum_shift a (b ∷ c ∷ cs) = omega (arith, word_sum_shift b (c ∷ cs), word_sum_shift c cs)

-- What a start at offset 1 or 3 makes of a sum.
abbrev rotation : ℕ → ℕ
rotation zero = 1
rotation (suc zero) = 256
rotation (suc (suc zero)) = 1
rotation (suc (suc (suc o))) = 256

sum_from_offset_mod :
    (o : ℕ) (bs : List ℕ)
    → o < 4
    → AreBytes bs
    → length bs < 2 ^ 31
    → (sum_from_offset o 65535 bs % 65535 ≡ rotation o * word_sum bs % 65535)
      × (65535 ≤ sum_from_offset o 65535 bs)
      × (sum_from_offset o 65535 bs < 2 ^ 64)
unfolding sum_from_offset word_sum
sum_from_offset_mod zero bs h ok room = omega (arith, sum_blocks_mod 65535 bs ok (omega arith))
sum_from_offset_mod (suc zero) [] h ok room = omega arith
sum_from_offset_mod (suc (suc zero)) [] h ok room = omega arith
sum_from_offset_mod (suc (suc (suc o))) [] h ok room = omega arith
sum_from_offset_mod (suc zero) (a ∷ []) h ok room = omega arith
sum_from_offset_mod (suc zero) (a ∷ b ∷ []) h ok room = omega arith
sum_from_offset_mod (suc zero) (a ∷ b ∷ c ∷ bs) h (ha, (hb, (hc, ok))) room =
    omega (
      arith,
      sum_blocks_mod (add64 65535 (word32 0 a b c)) bs ok (omega arith),
      word_sum_shift c bs,
    )
sum_from_offset_mod (suc (suc zero)) (a ∷ []) h ok room = omega arith
sum_from_offset_mod (suc (suc zero)) (a ∷ b ∷ bs) h (ha, (hb, ok)) room =
    omega (arith, sum_blocks_mod (add64 65535 (word32 0 0 a b)) bs ok (omega arith))
sum_from_offset_mod (suc (suc (suc o))) (a ∷ bs) h (ha, ok) room =
    omega (
      arith,
      sum_blocks_mod (add64 65535 (word32 0 0 0 a)) bs ok (omega arith),
      word_sum_shift a bs,
    )

swap_ones_complement : (s : ℕ) → swap_bytes (ones_complement (256 * s)) ≡ ones_complement s
unfolding ones_complement
swap_ones_complement s = ground arith

htons_not : (s : ℕ) → htons (2 ^ 64 - 1 - ones_complement s) ≡ htons (65535 - ones_complement s)
unfolding ones_complement
htons_not s = ground arith

-- Each offset, its swap included, gives the one's complement value of the word sum.
corrected :
    (o : ℕ) (bs : List ℕ)
    → o < 4
    → AreBytes bs
    → length bs < 2 ^ 31
    → let acc = fold (sum_from_offset o 65535 bs) in
      (if o % 2 == 0 then acc else swap_bytes acc) ≡ ones_complement (word_sum bs)
corrected o bs h ok room = go o h (sum_from_offset_mod o bs h ok room)
  where
    folded :
        (acc k : ℕ)
        → (acc % 65535 ≡ k * word_sum bs % 65535) × (65535 ≤ acc) × (acc < 2 ^ 64)
        → fold acc ≡ ones_complement (k * word_sum bs)
    folded acc k (e, lo, hi) =
        fold-ones_complement acc (omega arith) hi ∙ ones_complement_mod acc (k * word_sum bs) e

    once : ones_complement (1 * word_sum bs) ≡ ones_complement (word_sum bs)
    once = ap ones_complement (omega arith)

    go :
        (o : ℕ)
        → o < 4
        → (sum_from_offset o 65535 bs % 65535 ≡ rotation o * word_sum bs % 65535)
          × (65535 ≤ sum_from_offset o 65535 bs)
          × (sum_from_offset o 65535 bs < 2 ^ 64)
        → (if o % 2 == 0
            then fold (sum_from_offset o 65535 bs)
            else swap_bytes (fold (sum_from_offset o 65535 bs)))
          ≡ ones_complement (word_sum bs)
    go zero h m = folded _ 1 m ∙ once
    go (suc zero) h m = ap swap_bytes (folded _ 256 m) ∙ swap_ones_complement (word_sum bs)
    go (suc (suc zero)) h m = folded _ 1 m ∙ once
    go (suc (suc (suc zero))) h m =
        ap swap_bytes (folded _ 256 m) ∙ swap_ones_complement (word_sum bs)
    go (suc (suc (suc (suc o)))) h m = absurd (omega arith)

-- `ip_checksum` computes the checksum of RFC 1071 in network byte order, at every address that its
-- data may have: the partial block at the start and the swap of bytes at an odd address cancel out.
-- The data are bytes, fewer than 2 ^ 31.
pub ip_checksum-eq-rfc_checksum :
    (address : ℕ) (bs : List ℕ)
    → AreBytes bs
    → length bs < 2 ^ 31
    → ip_checksum address bs ≡ htons (rfc_checksum bs)
unfolding ip_checksum rfc_checksum
ip_checksum-eq-rfc_checksum address bs ok room =
    rw (corrected (address % 4) bs (omega arith) ok room) (htons_not (word_sum bs))
