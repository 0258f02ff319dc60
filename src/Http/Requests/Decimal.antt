-- ===== src/Http/Requests/Decimal.antt =====
-- The length that laboratoare/lab-10/requests.c writes is the one that helpers.c reads.
use protocoale_de_comunicati.Common.{
  ℕ, zero, suc, ◌+◌, ◌-◌, ◌*◌, ◌/◌, ◌%◌, ◌^◌, min, ◌≤◌, ◌<◌, ◌≡◌, refl, sym, ap, ◌==◌, ◌∙◌,
  Bool-cases, inl, inr, true, false, arith, List, [], ◌∷◌, ◌++◌, ltb, ok,
}
use protocoale_de_comunicati.Http.Client.{digits, signed_digits, strtol, is_digit, is_space}
use protocoale_de_comunicati.Http.Requests.{decimal_from, decimal}

digits-decimal_from :
    (fuel n : ℕ) (rest : List ℕ) → n < fuel → digits (decimal_from fuel n rest) 0 ≡ digits rest n
unfolding decimal_from digits
digits-decimal_from zero n rest lt = absurd (omega arith)
digits-decimal_from (suc fuel) n rest lt = elim (Bool-cases (ltb n 10)) [
  | inl small ↦
      let digit : is_digit (48 + n) ≡ true = ground arith in
      let value : 0 * 10 + (48 + n - 48) ≡ n = omega arith in rw (small, digit, value) refl
  | inr large ↦
      let digit : is_digit (48 + n % 10) ≡ true = ground arith in
      let value : n / 10 * 10 + (48 + n % 10 - 48) ≡ n = omega arith in
      rw
        (
          large,
          digits-decimal_from fuel (n / 10) ((48 + n % 10) ∷ rest) (ground arith),
          digit,
          value,
        )
        refl
]

decimal_from-append :
    (fuel n : ℕ) (rest more : List ℕ)
    → decimal_from fuel n rest ++ more ≡ decimal_from fuel n (rest ++ more)
unfolding decimal_from
decimal_from-append zero n rest more = refl
decimal_from-append (suc fuel) n rest more = elim (Bool-cases (ltb n 10)) [
  | inl small ↦ rw small refl
  | inr large ↦ rw large (decimal_from-append fuel (n / 10) ((48 + n % 10) ∷ rest) more)
]

-- The first character is a digit.
decimal_from-first :
    (fuel n : ℕ) (rest : List ℕ)
    → n < fuel
    → (c : ℕ) × (cs : List ℕ) × (decimal_from fuel n rest ≡ c ∷ cs) × (48 ≤ c) × (c ≤ 57)
unfolding decimal_from
decimal_from-first zero n rest lt = absurd (omega arith)
decimal_from-first (suc fuel) n rest lt = elim (Bool-cases (ltb n 10)) [
  | inl small ↦ rw small (48 + n, rest, refl, omega arith, ground arith)
  | inr large ↦ rw large (decimal_from-first fuel (n / 10) ((48 + n % 10) ∷ rest) (ground arith))
]

strtol-digit : (c : ℕ) (cs : List ℕ) → 48 ≤ c → c ≤ 57 → strtol (c ∷ cs) ≡ digits (c ∷ cs) 0
unfolding strtol signed_digits
strtol-digit c cs lo hi =
    let no_space : is_space c ≡ false = ground arith in
    let no_minus : (c == 45) ≡ false = ground arith in
    let no_plus : (c == 43) ≡ false = ground arith in rw (no_space, no_minus, no_plus) refl

-- What `compute_post_request` writes for a length below 2 ^ 63, `strtol` of `receive_from_server`
-- reads back, whatever comes after the line's end.
strtol-decimal : (n : ℕ) (after : List ℕ) → n < 2 ^ 63 → strtol (decimal n ++ (13 ∷ after)) ≡ ok n
unfolding decimal digits
strtol-decimal n after lt =
    let (c, cs, first, lo, hi) = decimal_from-first (suc n) n (13 ∷ after) (omega arith) in
    let read : digits (c ∷ cs) 0 ≡ digits (13 ∷ after) n =
      ap (λ s. digits s 0) (sym first) ∙ digits-decimal_from (suc n) n (13 ∷ after) (omega arith) in
    let kept : min n (2 ^ 63 - 1) ≡ n = omega arith in
    ap strtol (decimal_from-append (suc n) n [] (13 ∷ after) ∙ first)
    ∙ strtol-digit c cs lo hi
    ∙ read
    ∙ ap ok kept
