-- ===== src/Static/Longest.antt =====
-- The static router of laboratoare/lab-04 finds the longest prefix.
use protocoale_de_comunicati.Common.{
  ℕ, zero, suc, ◌≤◌, ◌≡◌, refl, sym, ap, ◌∙◌, subst, ◌⊎◌, inl, inr, Bool, true, false, Bool-cases,
  arith, Option, none, some, List, [], ◌∷◌, length, bit_and, ◌==◌, ltb, if◌then◌else◌,
}
use mathlib.Core.Bool.{true≢false}
use protocoale_de_comunicati.Router.RouteTable.{RouteEntry, network}
use protocoale_de_comunicati.Static.{get_best_route, ntohl, exchange, sort_from, sort_rtable}

abbrev pub In : RouteEntry → List RouteEntry → Type 0
In a [] = ⊥
In a (x ∷ xs) = (a ≡ x) ⊎ In a xs

abbrev pub is_route : ℕ → RouteEntry → Bool
is_route dest e = bit_and dest e.mask == network e

-- An entry of the table that is a route to the address with a mask as long as that of any other, or
-- none where the table has no route to it.
abbrev pub IsBest : ℕ → List RouteEntry → Option RouteEntry → Type 0
IsBest dest t none = (a : RouteEntry) → In a t → is_route dest a ≡ false
IsBest dest t (some e) =
    In e t
    × (is_route dest e ≡ true)
    × ((a : RouteEntry) → In a t → is_route dest a ≡ true → ntohl a.mask ≤ ntohl e.mask)

past : (a f z : RouteEntry) (rest : List RouteEntry) → In a (f ∷ rest) → In a (f ∷ z ∷ rest)
past a f z rest (inl e) = inl e
past a f z rest (inr m) = inr (inr m)

apart :
    (a f z : RouteEntry) (rest : List RouteEntry) → In a (f ∷ z ∷ rest) → (a ≡ z) ⊎ In a (f ∷ rest)
apart a f z rest (inl e) = inr (inl e)
apart a f z rest (inr (inl e)) = inl e
apart a f z rest (inr (inr m)) = inr (inr m)

-- What the inner loop leaves has the longest mask in front,
exchange-max :
    (x : RouteEntry) (ys : List RouteEntry) (a : RouteEntry)
    → In a (x ∷ ys)
    → ntohl a.mask ≤ ntohl (exchange x ys).0.mask
unfolding exchange
exchange-max x [] a (inl e) = rw e (omega arith)
exchange-max x [] a (inr m) = absurd m
exchange-max x (y ∷ ys) a m = elim (Bool-cases (ltb (ntohl x.mask) (ntohl y.mask))) [
  | inl longer ↦ rw longer (elim m [
    | inl e ↦ rw e (ground (arith, exchange-max y ys y (inl refl), longer))
    | inr m' ↦ exchange-max y ys a m'
  ])
  | inr shorter ↦ rw shorter (elim m [
    | inl e ↦ rw e (exchange-max x ys x (inl refl))
    | inr (inl e) ↦ rw e (ground (arith, exchange-max x ys x (inl refl), shorter))
    | inr (inr m') ↦ exchange-max x ys a (inr m')
  ])
]

-- and the same entries.
exchange-In :
    (x : RouteEntry) (ys : List RouteEntry) (a : RouteEntry)
    → In a (x ∷ ys)
    → In a ((exchange x ys).0 ∷ (exchange x ys).1)
unfolding exchange
exchange-In x [] a m = m
exchange-In x (y ∷ ys) a m = elim (Bool-cases (ltb (ntohl x.mask) (ntohl y.mask))) [
  | inl longer ↦
      rw longer (elim m [ inl e ↦ inr (inl e) | inr m' ↦ past a _ x _ (exchange-In y ys a m') ])
  | inr shorter ↦ rw shorter (elim m [
    | inl e ↦ past a _ y _ (exchange-In x ys a (inl e))
    | inr (inl e) ↦ inr (inl e)
    | inr (inr m') ↦ past a _ y _ (exchange-In x ys a (inr m'))
  ])
]

In-exchange :
    (x : RouteEntry) (ys : List RouteEntry) (a : RouteEntry)
    → In a ((exchange x ys).0 ∷ (exchange x ys).1)
    → In a (x ∷ ys)
unfolding exchange
In-exchange x [] a m = m
In-exchange x (y ∷ ys) a m = elim (Bool-cases (ltb (ntohl x.mask) (ntohl y.mask))) [
  | inl longer ↦
      let m' : In a ((exchange y ys).0 ∷ x ∷ (exchange y ys).1) =
        subst (λ b. In a ((swapped b).0 ∷ (swapped b).1)) longer m in
      elim (apart a _ x _ m') [ inl e ↦ inl e | inr n ↦ inr (In-exchange y ys a n) ]
  | inr shorter ↦
      let m' : In a ((exchange x ys).0 ∷ y ∷ (exchange x ys).1) =
        subst (λ b. In a ((swapped b).0 ∷ (swapped b).1)) shorter m in
      elim (apart a _ y _ m') [
        | inl e ↦ inr (inl e)
        | inr n ↦ elim (In-exchange x ys a n) [ inl e ↦ inl e | inr n' ↦ inr (inr n') ]
      ]
]
  where
    swapped : Bool → RouteEntry × List RouteEntry
    swapped b =
        if b
        then ((exchange y ys).0, x ∷ (exchange y ys).1)
        else ((exchange x ys).0, y ∷ (exchange x ys).1)

exchange-length : (x : RouteEntry) (ys : List RouteEntry) → length (exchange x ys).1 ≡ length ys
unfolding exchange
exchange-length x [] = refl
exchange-length x (y ∷ ys) = elim (Bool-cases (ltb (ntohl x.mask) (ntohl y.mask))) [
  | inl longer ↦ rw longer (omega (arith, exchange-length y ys))
  | inr shorter ↦ rw shorter (omega (arith, exchange-length x ys))
]

-- The answer for the entries behind one that is no route to the address is that for all.
IsBest-behind :
    (dest : ℕ) (x : RouteEntry) (xs : List RouteEntry) (r : Option RouteEntry)
    → is_route dest (exchange x xs).0 ≡ false
    → IsBest dest (exchange x xs).1 r
    → IsBest dest (x ∷ xs) r
IsBest-behind dest x xs none miss best =
    λ a m. elim (exchange-In x xs a m) [ inl e ↦ ap (is_route dest) e ∙ miss | inr m' ↦ best a m' ]
IsBest-behind dest x xs (some e) miss (there, hit, most) = (
  In-exchange x xs e (inr there),
  hit,
  λ a m route. elim (exchange-In x xs a m) [
    | inl same ↦ absurd (true≢false (sym route ∙ ap (is_route dest) same ∙ miss))
    | inr m' ↦ most a m' route
  ],
)

sort_from-IsBest :
    (dest turns : ℕ) (t : List RouteEntry)
    → length t ≤ turns
    → IsBest dest t (get_best_route (sort_from turns t) dest)
unfolding sort_from get_best_route
sort_from-IsBest dest zero [] le = λ a m. absurd m
sort_from-IsBest dest zero (x ∷ xs) le = absurd (omega arith)
sort_from-IsBest dest (suc turns) [] le = λ a m. absurd m
sort_from-IsBest dest (suc turns) (x ∷ xs) le =
    elim (Bool-cases (is_route dest (exchange x xs).0)) [
      | inl hit ↦
          rw hit
            (In-exchange x xs (exchange x xs).0 (inl refl), hit, λ a m route. exchange-max x xs a m)
      | inr miss ↦ rw miss (
          IsBest-behind dest x xs (get_best_route (sort_from turns (exchange x xs).1) dest) miss
            (sort_from-IsBest dest turns (exchange x xs).1 (omega (arith, exchange-length x xs))))
    ]

-- After `sort_rtable`, on every table, `get_best_route` returns an entry of the table that is a route
-- to the address and has the longest mask of those that are, and `NULL` exactly where none is.
pub get_best_route-IsBest :
    (dest : ℕ) (t : List RouteEntry) → IsBest dest t (get_best_route (sort_rtable t) dest)
unfolding sort_rtable
get_best_route-IsBest dest t = sort_from-IsBest dest (length t) t (omega arith)
