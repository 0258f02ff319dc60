-- ===== src/Common/Maps.antt =====
-- The maps of the C++ programs: `unordered_map` as a function from keys, and its three changes.
use Prim.Native.Nat.{ℕ}
use mathlib.Core.Path.{◌≡◌, refl}
use mathlib.Core.Logic.{◌↔◌}
use mathlib.Core.Bool.{Bool, true, false, ◌&&◌}
use mathlib.Core.Option.{Option, none, some}
use mathlib.Core.List.{List, [], ◌∷◌}
use native.Mathlib.Omega.{arith}
use protocoale_de_comunicati.Common.Tests.{◌==◌, ==_iff, if◌then◌else◌}

pub record Key (K : Type 0) : Type 0 where
  pub beq : K → K → Bool
  pub beq_iff : (j k : K) → (beq j k ≡ true) ↔ (j ≡ k)

-- The equality of `std::string`, and of `strcmp` on C strings.
unfoldable pub str_eq : List ℕ → List ℕ → Bool
str_eq [] [] = true
str_eq [] (c ∷ cs) = false
str_eq (c ∷ cs) [] = false
str_eq (c ∷ cs) (d ∷ ds) = (c == d) && str_eq cs ds

pub str_eq_iff : (s t : List ℕ) → (str_eq s t ≡ true) ↔ (s ≡ t)
unfolding str_eq
str_eq_iff [] [] = (λ _. refl, λ _. refl)
str_eq_iff [] (c ∷ cs) = (λ h. cc, λ h. cc)
str_eq_iff (c ∷ cs) [] = (λ h. cc, λ h. cc)
str_eq_iff (c ∷ cs) (d ∷ ds) =
    let rest = str_eq_iff cs ds in (λ h. ground (arith, rest), λ h. ground (arith, rest))

instance abbrev pub nat_key : Key ℕ
nat_key = record { beq = ◌==◌; beq_iff = ==_iff }

instance abbrev pub string_key : Key (List ℕ)
string_key = record { beq = str_eq; beq_iff = str_eq_iff }

abbrev pub UnorderedMap : Type 0 → Type 0 → Type 0
UnorderedMap K V = K → Option V

module _ {K V : Type 0} ⦃e : Key K⦄ where
  -- A key that is there keeps its value.
  abbrev pub insert : K → V → UnorderedMap K V → UnorderedMap K V
  insert k v m j = if e.beq j k then (elim (m k) [ none ↦ some v | some w ↦ some w ]) else m j

  abbrev pub assign : K → V → UnorderedMap K V → UnorderedMap K V
  assign k v m j = if e.beq j k then some v else m j

  abbrev pub erase : K → UnorderedMap K V → UnorderedMap K V
  erase k m j = if e.beq j k then none else m j
