-- ===== src/Router/Checksum/Fold.antt =====
-- The folding of carries in the checksums of tema1/skel.c.
use protocoale_de_comunicati.Common.{ℕ, ◌+◌, ◌/◌, ◌%◌, ◌^◌, ◌<◌, ◌≡◌, arith, ◌==◌, if◌then◌else◌}
use protocoale_de_comunicati.Router.Checksum.{fold, fold_carries}

-- The representative of a sum in one's complement: 1 to 65535, where 65535 is the zero.
unfoldable pub ones_complement : ℕ → ℕ
ones_complement s = if s % 65535 == 0 then 65535 else s % 65535

fold_carries_bounds :
    (acc : ℕ)
    → 0 < acc
    → acc < 2 ^ 33
    → (0 < fold_carries 3 acc)
      × (fold_carries 3 acc < 65536)
      × (fold_carries 3 acc % 65535 ≡ acc % 65535)
unfolding fold_carries
fold_carries_bounds acc lo hi = ground arith

ones_complement_unique :
    (s r : ℕ) → 0 < r → r < 65536 → r % 65535 ≡ s % 65535 → r ≡ ones_complement s
unfolding ones_complement
ones_complement_unique s r lo hi e = ground arith

-- Whatever a positive 64-bit sum is, the deferred carries give its one's complement value.
pub fold-ones_complement : (acc : ℕ) → 0 < acc → acc < 2 ^ 64 → fold acc ≡ ones_complement acc
unfolding fold
fold-ones_complement acc lo hi =
    let start : ℕ = acc % 2 ^ 32 + acc / 2 ^ 32 in
    let (a, b, c) = fold_carries_bounds start (omega arith) (omega arith) in
    ones_complement_unique acc (fold_carries 3 start) a b (omega arith)

pub ones_complement_mod : (s t : ℕ) → s % 65535 ≡ t % 65535 → ones_complement s ≡ ones_complement t
unfolding ones_complement
ones_complement_mod s t e = ground arith
