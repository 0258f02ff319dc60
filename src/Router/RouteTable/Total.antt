-- ===== src/Router/RouteTable/Total.antt =====
-- What `get_best_route` of tema1/router.c does on any table, sorted or not.
use protocoale_de_comunicati.Common.{
  ℕ, zero, suc, ◌+◌, ◌-◌, ◌/◌, ◌≤◌, ◌<◌, ◌≡◌, refl, inl, inr, some, List, [], ◌∷◌, arith, bit_and,
  ◌==◌, ltb, leb, if◌then◌else◌, get_elem?, get_elem?-lt, length, Bool-cases,
}
use protocoale_de_comunicati.Router.RouteTable.{
  RouteEntry, network, Found, route, null, bad_read, out_of_fuel, get_best_route, best_route,
}
use protocoale_de_comunicati.Router.RouteTable.Search.{Matches}

-- A route that matches and stands in the table, or `NULL`.
abbrev pub IsSound : List RouteEntry → ℕ → Found → Type 0
IsSound rtable dest (route e) = ((i : ℕ) × (get_elem? rtable i ≡ some e)) × Matches dest e
IsSound rtable dest null = Unit {0}
IsSound rtable dest bad_read = ⊥
IsSound rtable dest out_of_fuel = ⊥

module _ (rtable : List RouteEntry) (dest : ℕ) where
  probe-IsSound :
      (mid : ℕ) (e : RouteEntry) (below above : Found)
      → get_elem? rtable mid ≡ some e
      → IsSound rtable dest below
      → IsSound rtable dest above
      → IsSound rtable dest (
          if bit_and dest e.mask == network e
          then route e
          else if ltb (network e) (bit_and dest e.mask)
          then below
          else above)
  probe-IsSound mid e below above at b a = elim (Bool-cases (bit_and dest e.mask == network e)) [
    | inl equal ↦ rw equal ((mid, at), ground arith)
    | inr differ ↦ rw differ (elim (Bool-cases (ltb (network e) (bit_and dest e.mask))) [
      | inl gt ↦ rw gt b
      | inr le ↦ rw le a
    ])
  ]

  get_best_route-IsSound :
      (fuel start stop : ℕ)
      → start ≤ stop
      → stop ≤ length rtable
      → stop < fuel + start
      → IsSound rtable dest (get_best_route fuel rtable dest start stop)
  unfolding get_best_route
  get_best_route-IsSound zero start stop order inside enough = absurd (omega arith)
  get_best_route-IsSound (suc fuel) start stop order inside enough =
      elim (Bool-cases (leb stop start)) [
        | inl empty ↦ rw empty tt
        | inr more ↦
            let mid : ℕ = (start + stop - 1) / 2 in
            let lo : start ≤ mid = ground arith in
            let hi : mid < stop = ground arith in
            let (e, at) = get_elem?-lt rtable mid (omega arith) in
            rw (more, at)
              (probe-IsSound mid e _ _ at
                (get_best_route-IsSound fuel start mid lo (omega arith) (omega arith))
                (get_best_route-IsSound fuel (mid + 1) stop (omega arith) inside (omega arith)))
      ]

  pub best_route-IsSound : IsSound rtable dest (best_route rtable dest)
  unfolding best_route
  best_route-IsSound =
      get_best_route-IsSound (suc (length rtable)) 0 (length rtable) (omega arith) (omega arith)
        (omega arith)

-- The entry is a route to the address, and no entry of the table that is one has a longer mask.
-- Masks are compared as numbers in network order, `order` turning one round.
abbrev pub IsLongest : (order : ℕ → ℕ) → List RouteEntry → ℕ → Found → Type 0
IsLongest order rtable dest r =
    (e : RouteEntry) × (r ≡ route e)
    × ((i : ℕ) (a : RouteEntry)
        → get_elem? rtable i ≡ some a
        → Matches dest a
        → order a.mask ≤ order e.mask)

-- In a table of three whose first two entries both are routes to the address, the first with the
-- longer mask, the search does not return the longest prefix: the middle is probed first.
best_route_misses-IsLongest :
    (order : ℕ → ℕ) (dest : ℕ) (a b c : RouteEntry)
    → Matches dest a
    → Matches dest b
    → order b.mask < order a.mask
    → ¬ IsLongest order (a ∷ b ∷ c ∷ []) dest (best_route (a ∷ b ∷ c ∷ []) dest)
unfolding best_route get_best_route
best_route_misses-IsLongest order dest a b c ma mb longer (e, r, longest) =
    ground (arith, longest 0 a refl ma)
