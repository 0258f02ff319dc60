-- ===== src/Router/RouteTable/Search.antt =====
-- The binary search of `get_best_route` in tema1/router.c.
use protocoale_de_comunicati.Common.{
  ℕ, zero, suc, ◌+◌, ◌-◌, ◌/◌, ◌≤◌, ◌<◌, ◌≡◌, inl, inr, some, List, arith, bit_and, ◌==◌, ltb, leb,
  if◌then◌else◌, get_elem?, get_elem?-lt, length, Bool-cases,
}
use protocoale_de_comunicati.Router.RouteTable.{
  RouteEntry, network, Found, route, null, get_best_route, best_route,
}

-- The entry is a route to the address.
abbrev pub Matches : ℕ → RouteEntry → Type 0
Matches dest e = bit_and dest e.mask ≡ network e

-- The outcome of a search among the entries from `start` up to `stop`, when it is right.
pub data IsAnswer (rtable : List RouteEntry) (dest start stop : ℕ) : Found → Type 0 where
  hit :
      (i : ℕ) (e : RouteEntry)
      → start ≤ i
      → i < stop
      → get_elem? rtable i ≡ some e
      → Matches dest e
      → IsAnswer rtable dest start stop (route e)
  miss :
      ((i : ℕ) (e : RouteEntry)
        → start ≤ i
        → i < stop
        → get_elem? rtable i ≡ some e
        → ¬ Matches dest e)
      → IsAnswer rtable dest start stop null

-- All entries have one mask, and their networks fall along the table.
pub record IsSearchable (rtable : List RouteEntry) (mask : ℕ) : Type 0 where
  pub one_mask : (i : ℕ) (e : RouteEntry) → get_elem? rtable i ≡ some e → e.mask ≡ mask
  pub falls :
      (i j : ℕ) (a b : RouteEntry)
      → i ≤ j
      → get_elem? rtable i ≡ some a
      → get_elem? rtable j ≡ some b
      → network b ≤ network a

module _ {rtable : List RouteEntry} {mask : ℕ} (s : IsSearchable rtable mask) (dest : ℕ) where
  narrow_below :
      (start stop mid : ℕ) (e : RouteEntry) (r : Found)
      → get_elem? rtable mid ≡ some e
      → mid < stop
      → network e < bit_and dest e.mask
      → IsAnswer rtable dest start mid r
      → IsAnswer rtable dest start stop r
  narrow_below start stop mid e _ at inside gt (hit i a lo hi here fits) =
      hit i a lo (omega arith) here fits
  narrow_below start stop mid e _ at inside gt (miss no_match) = miss λ i a lo hi here fits.
      elim (Bool-cases (ltb i mid)) [
        | inl before ↦ no_match i a lo (ground arith) here fits
        | inr behind ↦
            let m1 = s.one_mask i a here in
            let m2 = s.one_mask mid e at in
            let le = s.falls mid i e a (ground arith) at here in
            let same : bit_and dest a.mask ≡ bit_and dest e.mask = cc in absurd (omega arith)
      ]

  narrow_above :
      (start stop mid : ℕ) (e : RouteEntry) (r : Found)
      → get_elem? rtable mid ≡ some e
      → start ≤ mid
      → bit_and dest e.mask < network e
      → IsAnswer rtable dest (mid + 1) stop r
      → IsAnswer rtable dest start stop r
  narrow_above start stop mid e _ at inside lt (hit i a lo hi here fits) =
      hit i a (omega arith) hi here fits
  narrow_above start stop mid e _ at inside lt (miss no_match) = miss λ i a lo hi here fits.
      elim (Bool-cases (ltb mid i)) [
        | inl behind ↦ no_match i a (ground arith) hi here fits
        | inr before ↦
            let m1 = s.one_mask i a here in
            let m2 = s.one_mask mid e at in
            let le = s.falls i mid a e (ground arith) here at in
            let same : bit_and dest a.mask ≡ bit_and dest e.mask = cc in absurd (omega arith)
      ]

  -- One probe: the entry in the middle is the route, or the half that is left has the answer.
  probe-IsAnswer :
      (start stop mid : ℕ) (e : RouteEntry) (below above : Found)
      → get_elem? rtable mid ≡ some e
      → start ≤ mid
      → mid < stop
      → IsAnswer rtable dest start mid below
      → IsAnswer rtable dest (mid + 1) stop above
      → IsAnswer rtable dest start stop (
          if bit_and dest e.mask == network e
          then route e
          else if ltb (network e) (bit_and dest e.mask)
          then below
          else above)
  probe-IsAnswer start stop mid e below above at lo hi b a =
      elim (Bool-cases (bit_and dest e.mask == network e)) [
        | inl equal ↦ rw equal (hit mid e lo hi at (ground arith))
        | inr differ ↦ rw differ (elim (Bool-cases (ltb (network e) (bit_and dest e.mask))) [
          | inl gt ↦ rw gt (narrow_below start stop mid e below at hi (ground arith) b)
          | inr le ↦ rw le (narrow_above start stop mid e above at lo (ground arith) a)
        ])
      ]

  get_best_route-IsAnswer :
      (fuel start stop : ℕ)
      → start ≤ stop
      → stop ≤ length rtable
      → stop < fuel + start
      → IsAnswer rtable dest start stop (get_best_route fuel rtable dest start stop)
  unfolding get_best_route
  get_best_route-IsAnswer zero start stop order inside enough = absurd (omega arith)
  get_best_route-IsAnswer (suc fuel) start stop order inside enough =
      elim (Bool-cases (leb stop start)) [
        | inl empty ↦ rw empty (miss λ i e lo hi. absurd (ground arith))
        | inr more ↦
            let mid : ℕ = (start + stop - 1) / 2 in
            let lo : start ≤ mid = ground arith in
            let hi : mid < stop = ground arith in
            let (e, at) = get_elem?-lt rtable mid (omega arith) in
            rw (more, at)
              (probe-IsAnswer start stop mid e _ _ at lo hi
                (get_best_route-IsAnswer fuel start mid lo (omega arith) (omega arith))
                (get_best_route-IsAnswer fuel (mid + 1) stop (omega arith) inside (omega arith)))
      ]

  -- On a table with one mask that is sorted by network, `get_best_route` ends, reads inside the
  -- table only, and returns an entry that is a route to the address, or `NULL` if no entry is.
  pub best_route-IsAnswer : IsAnswer rtable dest 0 (length rtable) (best_route rtable dest)
  unfolding best_route
  best_route-IsAnswer =
      get_best_route-IsAnswer (suc (length rtable)) 0 (length rtable) (omega arith) (omega arith)
        (omega arith)
