-- ===== src/Common/Control.antt =====
-- How a piece of C code ends: with a value, by `exit`, or by an access outside its memory.
use mathlib.Core.Path.{◌≡◌, refl, subst}

pub data Outcome {ℓ} (A : Type ℓ) : Type ℓ where
  ok : A → Outcome A
  exited : Outcome A
  fault : Outcome A

infixl 5 ◌>>=◌
abbrev pub ◌>>=◌ {ℓ κ} : {A : Type ℓ} {B : Type κ} → Outcome A → (A → Outcome B) → Outcome B
ok a >>= f = f a
exited >>= f = exited
fault >>= f = fault

-- The outcome is a value with the property: neither an exit nor a fault.
abbrev pub Returns {ℓ} : {A : Type ℓ} → (A → Type 0) → Outcome A → Type 0
Returns P (ok a) = P a
Returns P exited = ⊥
Returns P fault = ⊥

-- A property of the value, if the outcome is one.
abbrev pub Whenever {ℓ} : {A : Type ℓ} → (A → Type 0) → Outcome A → Type 0
Whenever P (ok a) = P a
Whenever P exited = Unit
Whenever P fault = Unit

pub Whenever-value {ℓ} :
    {A : Type ℓ} (P : A → Type 0) (o : Outcome A) (a : A) → o ≡ ok a → Whenever P o → P a
Whenever-value P o a e p = subst (Whenever P) e p

pub Whenever-bind {ℓ κ} :
    {A : Type ℓ} {B : Type κ} (P : A → Type 0) (Q : B → Type 0) (o : Outcome A) (f : A → Outcome B)
    → Whenever P o
    → ((a : A) → P a → Whenever Q (f a))
    → Whenever Q (o >>= f)
Whenever-bind P Q (ok a) f p next = next a p
Whenever-bind P Q exited f p next = tt
Whenever-bind P Q fault f p next = tt

pub Whenever-all {ℓ} :
    {A : Type ℓ} (P : A → Type 0) (o : Outcome A) → ((a : A) → P a) → Whenever P o
Whenever-all P (ok a) all = all a
Whenever-all P exited all = tt
Whenever-all P fault all = tt

pub Returns-value {ℓ} :
    {A : Type ℓ} {P : A → Type 0} (o : Outcome A) → Returns P o → (a : A) × (o ≡ ok a) × P a
Returns-value (ok a) p = (a, refl, p)
Returns-value exited p = absurd p
Returns-value fault p = absurd p

pub Returns-mono {ℓ} :
    {A : Type ℓ} {P Q : A → Type 0} (o : Outcome A)
    → Returns P o
    → ((a : A) → P a → Q a)
    → Returns Q o
Returns-mono (ok a) p weaken = weaken a p
Returns-mono exited p weaken = p
Returns-mono fault p weaken = p

pub Returns-bind {ℓ κ} :
    {A : Type ℓ} {B : Type κ} (P : A → Type 0) (Q : B → Type 0) (o : Outcome A) (f : A → Outcome B)
    → Returns P o
    → ((a : A) → P a → Returns Q (f a))
    → Returns Q (o >>= f)
Returns-bind P Q (ok a) f p next = next a p
Returns-bind P Q exited f p next = p
Returns-bind P Q fault f p next = p

-- The outcome is an exit or a value with the property, and no fault.
abbrev pub Safe {ℓ} : {A : Type ℓ} → (A → Type 0) → Outcome A → Type 0
Safe P (ok a) = P a
Safe P exited = Unit
Safe P fault = ⊥

pub Safe-of_Returns {ℓ} : {A : Type ℓ} (P : A → Type 0) (o : Outcome A) → Returns P o → Safe P o
Safe-of_Returns P (ok a) p = p
Safe-of_Returns P exited p = absurd p
Safe-of_Returns P fault p = p

pub Safe-bind {ℓ κ} :
    {A : Type ℓ} {B : Type κ} (P : A → Type 0) (Q : B → Type 0) (o : Outcome A) (f : A → Outcome B)
    → Safe P o
    → ((a : A) → P a → Safe Q (f a))
    → Safe Q (o >>= f)
Safe-bind P Q (ok a) f p next = next a p
Safe-bind P Q exited f p next = p
Safe-bind P Q fault f p next = p

pub Whenever-mono {ℓ} :
    {A : Type ℓ} (P Q : A → Type 0) (o : Outcome A)
    → Whenever P o
    → ((a : A) → P a → Q a)
    → Whenever Q o
Whenever-mono P Q (ok a) p weaken = weaken a p
Whenever-mono P Q exited p weaken = tt
Whenever-mono P Q fault p weaken = tt

pub Safe-and {ℓ} :
    {A : Type ℓ} (P Q : A → Type 0) (o : Outcome A)
    → Safe P o
    → Whenever Q o
    → Safe (λ a. P a × Q a) o
Safe-and P Q (ok a) p q = (p, q)
Safe-and P Q exited p q = tt
Safe-and P Q fault p q = p
