-- ===== src/Http/Client/Ends.antt =====
-- How the code of laboratoare/lab-10/helpers.c ends: with a value, by `exit` or by a fault.
use protocoale_de_comunicati.Common.{
  ℕ, ◌+◌, ◌-◌, ◌*◌, Bool-cases, inl, inr, List, [], ◌∷◌, ◌==◌, Outcome, ok, exited, fault, ◌>>=◌,
  Returns, Returns-value,
}
use protocoale_de_comunicati.Http.Client.{is_digit, is_space, digits, signed_digits, strtol}

-- How a piece of code ends: with a value of which `P` holds, or by `exit` and `E`, or by a fault and `F`.
abbrev pub Ends : {A : Type 0} → (P : A → Type 0) → (E F : Type 0) → Outcome A → Type 0
Ends P E F (ok a) = P a
Ends P E F exited = E
Ends P E F fault = F

pub Ends-bind :
    {A B : Type 0} (P : A → Type 0) (Q : B → Type 0) (E F : Type 0) (o : Outcome A)
    (f : A → Outcome B)
    → Ends P E F o
    → ((a : A) → P a → Ends Q E F (f a))
    → Ends Q E F (o >>= f)
Ends-bind P Q E F (ok a) f p next = next a p
Ends-bind P Q E F exited f p next = p
Ends-bind P Q E F fault f p next = p

pub Ends-of_Returns :
    {A : Type 0} (P : A → Type 0) (E F : Type 0) (o : Outcome A) → Returns P o → Ends P E F o
Ends-of_Returns P E F o r = let (a, e, p) = Returns-value o r in rw e p

-- `strtol` does not end the program.
digits-Ends : (cs : List ℕ) (value : ℕ) → Ends (λ _. Unit) ⊥ Unit (digits cs value)
unfolding digits
digits-Ends [] value = tt
digits-Ends (c ∷ cs) value = elim (Bool-cases (is_digit c)) [
  | inl digit ↦ rw digit (digits-Ends cs (value * 10 + (c - 48)))
  | inr other ↦ rw other tt
]

signed_digits-Ends : (cs : List ℕ) → Ends (λ _. Unit) ⊥ Unit (signed_digits cs)
unfolding signed_digits
signed_digits-Ends [] = tt
signed_digits-Ends (c ∷ cs) = elim (Bool-cases (c == b'-')) [
  | inl minus ↦
      rw minus
        (Ends-bind (λ _. Unit) (λ _. Unit) ⊥ Unit (digits cs 0) _ (digits-Ends cs 0) (λ v u. tt))
  | inr other ↦ elim (Bool-cases (c == b'+')) [
    | inl plus ↦ rw (other, plus) (digits-Ends cs 0)
    | inr neither ↦ rw (other, neither) (digits-Ends (c ∷ cs) 0)
  ]
]

pub strtol-Ends : (cs : List ℕ) → Ends (λ _. Unit) ⊥ Unit (strtol cs)
unfolding strtol
strtol-Ends [] = tt
strtol-Ends (c ∷ cs) = elim (Bool-cases (is_space c)) [
  | inl space ↦ rw space (strtol-Ends cs)
  | inr other ↦ rw other (signed_digits-Ends (c ∷ cs))
]
