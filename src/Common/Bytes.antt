-- ===== src/Common/Bytes.antt =====
-- Byte memory: what a pointer into a payload sees, by offset.
use protocoale_de_comunicati.Common.Tests.{◌==◌, if◌then◌else◌}
use protocoale_de_comunicati.Common.Lists.{length}
use Prim.Native.Nat.{ℕ, zero, suc, ◌+◌}
use mathlib.Core.Path.{◌≡◌, refl}
use mathlib.Core.List.{List, [], ◌∷◌}
use native.Mathlib.Omega.{arith}

abbrev pub Memory : Type 0
Memory = ℕ → ℕ

abbrev pub store : Memory → ℕ → ℕ → Memory
store mem at v i = if i == at then v else mem i

-- `memcpy` into the memory, and out of it.
abbrev pub write_bytes : Memory → ℕ → List ℕ → Memory
write_bytes mem at [] = mem
write_bytes mem at (b ∷ bs) = write_bytes (store mem at b) (at + 1) bs

abbrev pub read_bytes : Memory → ℕ → ℕ → List ℕ
read_bytes mem at zero = []
read_bytes mem at (suc n) = mem at ∷ read_bytes mem (at + 1) n

pub length-read_bytes : (mem : Memory) (at n : ℕ) → length (read_bytes mem at n) ≡ n
length-read_bytes mem at zero = refl
length-read_bytes mem at (suc n) = omega (arith, length-read_bytes mem (at + 1) n)
