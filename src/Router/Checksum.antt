-- ===== src/Router/Checksum.antt =====
-- `ip_checksum` and `icmp_checksum` of tema1/skel.c, on the bytes that they read.
pub mod Fold
pub mod Icmp
pub mod Rfc
pub mod Verify
use protocoale_de_comunicati.Common.{
  ℕ, zero, suc, ◌+◌, ◌-◌, ◌*◌, ◌/◌, ◌%◌, ◌^◌, List, [], ◌∷◌, ◌==◌, if◌then◌else◌, length, u16,
  htons, load16,
}

-- `ntohl` of the word that `memcpy` fills with four bytes: the first byte is the highest.
abbrev pub word32 : ℕ → ℕ → ℕ → ℕ → ℕ
word32 a b c d = a * 16777216 + b * 65536 + c * 256 + d

-- `acc += ...` on a `uint64_t`.
abbrev pub add64 : ℕ → ℕ → ℕ
add64 a b = (a + b) % 2 ^ 64

-- The complete 32-bit blocks, and the partial block at the end, padded with zeros.
unfoldable pub sum_blocks : ℕ → List ℕ → ℕ
sum_blocks acc [] = acc
sum_blocks acc (a ∷ []) = add64 acc (word32 a 0 0 0)
sum_blocks acc (a ∷ b ∷ []) = add64 acc (word32 a b 0 0)
sum_blocks acc (a ∷ b ∷ c ∷ []) = add64 acc (word32 a b c 0)
sum_blocks acc (a ∷ b ∷ c ∷ d ∷ bs) = sum_blocks (add64 acc (word32 a b c d)) bs

-- The partial block at the start: at `offset` bytes behind a multiple of four, `4 - offset` bytes
-- at most go to the end of a word of zeros.
unfoldable pub sum_from_offset : (offset : ℕ) → ℕ → List ℕ → ℕ
unfolding sum_blocks
sum_from_offset zero acc bs = sum_blocks acc bs
sum_from_offset (suc o) acc [] = add64 acc 0
sum_from_offset (suc zero) acc (a ∷ []) = add64 acc (word32 0 a 0 0)
sum_from_offset (suc zero) acc (a ∷ b ∷ []) = add64 acc (word32 0 a b 0)
sum_from_offset (suc zero) acc (a ∷ b ∷ c ∷ bs) = sum_blocks (add64 acc (word32 0 a b c)) bs
sum_from_offset (suc (suc zero)) acc (a ∷ []) = add64 acc (word32 0 0 a 0)
sum_from_offset (suc (suc zero)) acc (a ∷ b ∷ bs) = sum_blocks (add64 acc (word32 0 0 a b)) bs
sum_from_offset (suc (suc (suc o))) acc (a ∷ bs) = sum_blocks (add64 acc (word32 0 0 0 a)) bs

-- `while (acc >> 16) acc = (acc & 0xffff) + (acc >> 16);` on fuel.
unfoldable pub fold_carries : ℕ → ℕ → ℕ
fold_carries zero acc = acc
fold_carries (suc fuel) acc =
    let rest = fold_carries fuel (acc % 65536 + acc / 65536) in
    if acc / 65536 == 0 then acc else rest

-- The deferred carries. What `acc` holds after the first line is below `2 ^ 33`, and three rounds
-- bring that below `2 ^ 16`.
unfoldable pub fold : ℕ → ℕ
unfolding fold_carries
fold acc = fold_carries 3 (acc % 2 ^ 32 + acc / 2 ^ 32)

-- `((acc & 0xff00) >> 8) | ((acc & 0x00ff) << 8)`: the two parts share no bit, so `|` is a sum.
abbrev pub swap_bytes : ℕ → ℕ
swap_bytes acc = acc / 256 % 256 + acc % 256 * 256

-- The first argument is the address of the data, of which only `& 3` counts. The result is the
-- `uint16_t` that the caller stores, so `htons(~acc)`.
unfoldable pub ip_checksum : ℕ → List ℕ → ℕ
unfolding sum_from_offset fold
ip_checksum address bs =
    let offset = address % 4 in
    let acc = fold (sum_from_offset offset 65535 bs) in
    let acc' = if offset % 2 == 0 then acc else swap_bytes acc in htons (2 ^ 64 - 1 - acc')

-- `while (size > 1) cksum += *buffer++` over 16-bit words in the host's order; an odd byte at the
-- end is read together with the byte `past` that stands behind the data.
unfoldable pub sum_words : (past : ℕ) → ℕ → List ℕ → ℕ
sum_words past acc [] = acc
sum_words past acc (a ∷ []) = add64 acc (load16 a past)
sum_words past acc (a ∷ b ∷ bs) = sum_words past (add64 acc (load16 a b)) bs

unfoldable pub icmp_checksum : (past : ℕ) → List ℕ → ℕ
unfolding sum_words
icmp_checksum past bs =
    let cksum = sum_words past 0 bs in
    let once = cksum / 65536 + cksum % 65536 in
    let twice = add64 once (once / 65536) in u16 (2 ^ 64 - 1 - twice)
