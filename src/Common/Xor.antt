-- ===== src/Common/Xor.antt =====
-- `^` on unsigned numbers of `w` bits, and that it is a group in which each element is its own inverse.
use Prim.Native.Nat.{ℕ, zero, suc, ◌+◌, ◌*◌, ◌/◌, ◌%◌, ◌^◌, ◌<◌}
use mathlib.Core.Path.{◌≡◌, refl, sym, ap, ◌∙◌}
use mathlib.Core.Logic.{◌≢◌}
use native.Mathlib.Omega.{arith}

unfoldable pub xor : (w : ℕ) → ℕ → ℕ → ℕ
xor zero a b = 0
xor (suc w) a b = (a + b) % 2 + 2 * xor w (a / 2) (b / 2)

pub xor_comm : (w a b : ℕ) → xor w a b ≡ xor w b a
unfolding xor
xor_comm zero a b = refl
xor_comm (suc w) a b = omega (arith, xor_comm w (a / 2) (b / 2))

xor_half : (w a b : ℕ) → ((a + b) % 2 + 2 * xor w (a / 2) (b / 2)) / 2 ≡ xor w (a / 2) (b / 2)
xor_half w a b = omega arith

pub xor_assoc : (w a b c : ℕ) → xor w (xor w a b) c ≡ xor w a (xor w b c)
unfolding xor
xor_assoc zero a b c = refl
xor_assoc (suc w) a b c =
    rw (xor_half w a b, xor_half w b c) (omega (arith, xor_assoc w (a / 2) (b / 2) (c / 2)))

pub xor_self : (w a : ℕ) → xor w a a ≡ 0
unfolding xor
xor_self zero a = refl
xor_self (suc w) a = omega (arith, xor_self w (a / 2))

-- The last operand of a `^` may change places with the one before.
pub xor_right : (w a b c : ℕ) → xor w (xor w a b) c ≡ xor w (xor w a c) b
xor_right w a b c =
    xor_assoc w a b c ∙ ap (λ x. xor w a x) (xor_comm w b c) ∙ sym (xor_assoc w a c b)

-- What a `^` leaves as it is, shows nothing of its operand but zeros.
pub xor_fixed : (w a m : ℕ) → xor w a m ≡ a → xor w 0 m ≡ 0
xor_fixed w a m e =
    ap (λ x. xor w x m) (sym (xor_self w a))
    ∙ xor_assoc w a a m
    ∙ ap (λ x. xor w a x) e
    ∙ xor_self w a

-- A bit of a byte is no zero.
pub xor_mask : (k : ℕ) → k < 8 → xor 8 0 (2 ^ k) ≢ 0
unfolding xor
xor_mask zero lt = ground arith
xor_mask (suc zero) lt = ground arith
xor_mask (suc (suc zero)) lt = ground arith
xor_mask (suc (suc (suc zero))) lt = ground arith
xor_mask (suc (suc (suc (suc zero)))) lt = ground arith
xor_mask (suc (suc (suc (suc (suc zero))))) lt = ground arith
xor_mask (suc (suc (suc (suc (suc (suc zero)))))) lt = ground arith
xor_mask (suc (suc (suc (suc (suc (suc (suc zero))))))) lt = ground arith
xor_mask (suc (suc (suc (suc (suc (suc (suc (suc k)))))))) lt = absurd (omega arith)
