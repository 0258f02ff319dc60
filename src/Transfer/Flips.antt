-- ===== src/Transfer/Flips.antt =====
-- What the checksum of laboratoare/lab-03 detects of what the link emulator corrupts.
use protocoale_de_comunicati.Common.{
  ℕ, zero, suc, ◌+◌, ◌-◌, ◌≤◌, ◌<◌, ◌%◌, ◌^◌, ◌≡◌, ◌≢◌, refl, sym, ap, ◌∙◌, true, false, ◌⊎◌, inl,
  inr, Bool-cases, arith, Memory, store, xor, xor_assoc, xor_right, xor_fixed, xor_mask, subst,
  ◌==◌, ltb, ltb→lt, if◌then◌else◌, Whenever,
}
use protocoale_de_comunicati.Link.Channel.{Msg, msgsize, Draws, magnitude, flip_bit, corrupted}
use protocoale_de_comunicati.Transfer.{checksum_from, checksum, is_intact}

-- The bits flipped in `result` are flipped in the checksum.
checksum_from-xor :
    (p : Memory) (i n result m : ℕ)
    → checksum_from p i n (xor 8 result m) ≡ xor 8 (checksum_from p i n result) m
unfolding checksum_from
checksum_from-xor p i zero result m = refl
checksum_from-xor p i (suc n) result m =
    ap (checksum_from p (i + 1) n) (xor_right 8 result m (p i))
    ∙ checksum_from-xor p (i + 1) n (xor 8 result (p i)) m

-- A byte outside the range has no part in it.
checksum_from-outside :
    (p : Memory) (i n result at b : ℕ)
    → (at < i) ⊎ (i + n ≤ at)
    → checksum_from (store p at b) i n result ≡ checksum_from p i n result
unfolding checksum_from
checksum_from-outside p i zero result at b out = refl
checksum_from-outside p i (suc n) result at b out =
    let other : (i == at) ≡ false = ground arith in
    rw other (checksum_from-outside p (i + 1) n (xor 8 result (p i)) at b (ground arith))

checksum_from-inside :
    (p : Memory) (i n result at m : ℕ)
    → i ≤ at
    → at < i + n
    → checksum_from (store p at (xor 8 (p at) m)) i n result ≡ xor 8 (checksum_from p i n result) m
unfolding checksum_from
checksum_from-inside p i zero result at m le lt = absurd (omega arith)
checksum_from-inside p i (suc n) result at m le lt = elim (Bool-cases (i == at)) [
  | inl here ↦
      let place : at ≡ i = ground arith in
      let byte : p at ≡ p i = ap p place in
      rw here (
        checksum_from-outside p (i + 1) n (xor 8 result (xor 8 (p at) m)) at (xor 8 (p at) m)
          (inl (omega arith))
        ∙ ap (λ b. checksum_from p (i + 1) n (xor 8 result (xor 8 b m))) byte
        ∙ ap (checksum_from p (i + 1) n) (sym (xor_assoc 8 result (p i) m))
        ∙ checksum_from-xor p (i + 1) n (xor 8 result (p i)) m)
  | inr later ↦
      rw later
        (checksum_from-inside p (i + 1) n (xor 8 result (p i)) at m (ground arith) (omega arith))
]

checksum-flip :
    (p : Memory) (at m : ℕ)
    → at < msgsize - 1
    → checksum (store p at (xor 8 (p at) m)) ≡ xor 8 (checksum p) m
unfolding checksum
checksum-flip p zero m lt =
    checksum_from-outside p 2 1397 _ 0 (xor 8 (p 0) m) (inl (omega arith))
    ∙ ap (checksum_from p 2 1397) (xor_right 8 (p 0) m (p 1))
    ∙ checksum_from-xor p 2 1397 (xor 8 (p 0) (p 1)) m
checksum-flip p (suc zero) m lt =
    checksum_from-outside p 2 1397 _ 1 (xor 8 (p 1) m) (inl (omega arith))
    ∙ ap (checksum_from p 2 1397) (sym (xor_assoc 8 (p 0) (p 1) m))
    ∙ checksum_from-xor p 2 1397 (xor 8 (p 0) (p 1)) m
checksum-flip p (suc (suc at)) m lt =
    let first : (0 == suc (suc at)) ≡ false = ground arith in
    let second : (1 == suc (suc at)) ≡ false = ground arith in
    rw (first, second)
      (checksum_from-inside p 2 1397 (xor 8 (p 0) (p 1)) (suc (suc at)) m (omega arith)
        (omega arith))

checksum-last : (p : Memory) (at b : ℕ) → at ≡ msgsize - 1 → checksum (store p at b) ≡ checksum p
unfolding checksum
checksum-last p at b place =
    let first : (0 == at) ≡ false = ground arith in
    let second : (1 == at) ≡ false = ground arith in
    rw (first, second) (checksum_from-outside p 2 1397 _ at b (inr (omega arith)))

flip_detected :
    (p : Memory) (at k : ℕ)
    → at < msgsize
    → k < 8
    → p (msgsize - 1) ≡ checksum p
    → store p at (xor 8 (p at) (2 ^ k)) (msgsize - 1) ≢ checksum (store p at (xor 8 (p at) (2 ^ k)))
flip_detected p at k lt bit right same = elim (Bool-cases (msgsize - 1 == at)) [
  | inl last ↦
      let place : at ≡ msgsize - 1 = ground arith in
      let kept = checksum-last p at (xor 8 (p at) (2 ^ k)) place in
      let byte : p at ≡ p (msgsize - 1) = ap p place in
      let fixed : xor 8 (p at) (2 ^ k) ≡ p at =
        subst
          (λ b.
            (if b then xor 8 (p at) (2 ^ k) else p (msgsize - 1))
            ≡ checksum (store p at (xor 8 (p at) (2 ^ k))))
          last same
        ∙ kept
        ∙ sym right
        ∙ sym byte in
      xor_mask k bit (xor_fixed 8 (p at) (2 ^ k) fixed)
  | inr inside ↦
      let flipped = checksum-flip p at (2 ^ k) (ground arith) in
      let fixed : xor 8 (checksum p) (2 ^ k) ≡ checksum p =
        sym flipped
        ∙ sym (
            subst
              (λ b.
                (if b then xor 8 (p at) (2 ^ k) else p (msgsize - 1))
                ≡ checksum (store p at (xor 8 (p at) (2 ^ k))))
              inside same)
        ∙ right in
      xor_mask k bit (xor_fixed 8 (checksum p) (2 ^ k) fixed)
]

==-true : (a b : ℕ) → (a == b) ≡ true → a ≡ b
==-true a b e = ground arith

==-false : (a b : ℕ) → a ≢ b → (a == b) ≡ false
==-false a b n = ground arith

-- A message with a right checksum of which the emulator has flipped a bit is not accepted, whichever
-- byte and bit of the payload it chose, the checksum's own included.
pub corrupted_detected :
    (r : Msg) (d : Draws)
    → is_intact r ≡ true
    → Whenever (λ r'. is_intact r' ≡ false) (corrupted r d)
unfolding corrupted flip_bit is_intact
corrupted_detected r d intact = elim (Bool-cases (magnitude r.len == 0)) [
  | inl none ↦ rw none tt
  | inr some ↦ rw some (elim (Bool-cases (ltb (d.index % magnitude r.len) msgsize)) [
    | inr outside ↦ rw outside tt
    | inl within ↦ rw within (
        ==-false _ _ (
          flip_detected r.payload (d.index % magnitude r.len) (d.bit % 8) (ltb→lt _ _ within)
            (omega arith) (==-true _ _ intact)))
  ])
]
