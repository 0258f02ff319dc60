-- ===== src/Router/Checksum/Icmp.antt =====
-- `icmp_checksum` of tema1/skel.c, which sums words in the host's order.
use protocoale_de_comunicati.Common.{
  ℕ, ◌+◌, ◌*◌, ◌/◌, ◌%◌, ◌^◌, ◌<◌, ◌≡◌, List, [], ◌∷◌, ◌++◌, arith, length, bytes16, load16,
}
use protocoale_de_comunicati.Router.Checksum.{add64, sum_words, icmp_checksum, ip_checksum}
use protocoale_de_comunicati.Router.Checksum.Rfc.{AreBytes, word_sum}
use protocoale_de_comunicati.Router.Checksum.Verify.{
  word_sum-replace, length-replace, AreBytes-bytes16, ip_checksum-zero_iff,
}

-- A sum in the host's order is the sum in network order with the bytes of every word swapped.
sum_words_mod :
    (past acc : ℕ) (bs : List ℕ)
    → AreBytes bs
    → length bs % 2 ≡ 0
    → acc + length bs * 2 ^ 15 < 2 ^ 32
    → (sum_words past acc bs % 65535 ≡ (acc + 256 * word_sum bs) % 65535)
      × (sum_words past acc bs < 2 ^ 32)
unfolding sum_words word_sum
sum_words_mod past acc [] ok even room = omega arith
sum_words_mod past acc (a ∷ []) ok even room = absurd (omega arith)
sum_words_mod past acc (a ∷ b ∷ bs) (ha, (hb, ok)) even room =
    omega (arith, sum_words_mod past (add64 acc (load16 a b)) bs ok (omega arith) (omega arith))

-- Two rounds fold a sum below 2 ^ 32, and the result completes it to a multiple of 65535.
icmp_checksum_completes :
    (past : ℕ) (bs : List ℕ)
    → sum_words past 0 bs < 2 ^ 32
    → (icmp_checksum past bs < 65536) × ((sum_words past 0 bs + icmp_checksum past bs) % 65535 ≡ 0)
unfolding icmp_checksum
icmp_checksum_completes past bs room = omega arith

-- What `icmp_checksum` computes over a zero checksum field, stored in the host's order at an even
-- offset of data of even length below 2 ^ 16, is accepted by `ip_checksum` at every address: the
-- order of the bytes makes no difference.
pub icmp_checksum-store :
    (past address : ℕ) (pre post : List ℕ)
    → length pre % 2 ≡ 0
    → length (pre ++ (0 ∷ 0 ∷ post)) % 2 ≡ 0
    → length (pre ++ (0 ∷ 0 ∷ post)) < 2 ^ 16
    → AreBytes (pre ++ (0 ∷ 0 ∷ post))
    → let c = icmp_checksum past (pre ++ (0 ∷ 0 ∷ post)) in
      ip_checksum address (pre ++ (bytes16 c ++ post)) ≡ 0
icmp_checksum-store past address pre post even whole room ok =
    let zeroed : List ℕ = pre ++ (0 ∷ 0 ∷ post) in
    let c : ℕ = icmp_checksum past zeroed in
    let (sums, small) = sum_words_mod past 0 zeroed ok whole (omega arith) in
    let (half, done) = icmp_checksum_completes past zeroed small in
    (ip_checksum-zero_iff address (pre ++ (bytes16 c ++ post)) (AreBytes-bytes16 c pre post ok)
        (omega (arith, length-replace (c % 256) (c / 256 % 256) pre post))).1
      (omega (arith, word_sum-replace (c % 256) (c / 256 % 256) pre post even))
