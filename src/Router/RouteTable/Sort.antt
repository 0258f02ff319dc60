-- ===== src/Router/RouteTable/Sort.antt =====
-- `sort_rtable` of tema1/router.c: `qsort` of the C library under `compar`, then the search.
use mathlib.Core.List.{Mem, Perm, mem-cons, mem-cons_self, mem-cons_of_mem, not-mem-nil}
use mathlib.Core.List.Perm
use mathlib.Core.Logic.Or
use protocoale_de_comunicati.Common.{
  ℕ, zero, suc, ◌+◌, ◌^◌, ◌<◌, ◌≡◌, refl, inl, inr, some, true, false, List, [], ◌∷◌, arith, ltb,
  get_elem?, length, Bool-cases,
}
use protocoale_de_comunicati.Router.RouteTable.{
  RouteEntry, network, Found, route, null, is_after, best_route,
}
use protocoale_de_comunicati.Router.RouteTable.Search.{
  Matches, IsAnswer, hit, miss, IsSearchable, best_route-IsAnswer,
}

-- Within half the range of addresses `compar` orders by falling network.
pub is_after_iff :
    (r1 r2 : RouteEntry)
    → network r1 < 2 ^ 31
    → network r2 < 2 ^ 31
    → is_after r1 r2 ≡ ltb (network r1) (network r2)
unfolding is_after
is_after_iff r1 r2 h1 h2 = ground arith

-- Two networks that lie more than `2 ^ 31` apart are sorted the wrong way round: the difference
-- overflows an `int`.
is_after_reversed :
    (r1 r2 : RouteEntry)
    → network r2 < 2 ^ 32
    → network r1 + 2 ^ 31 < network r2
    → (is_after r1 r2 ≡ false) × (is_after r2 r1 ≡ true)
unfolding is_after
is_after_reversed r1 r2 h far = ground arith

-- `compar` gives no contradiction among the entries of the table.
abbrev pub IsConsistent : List RouteEntry → Type 0
IsConsistent t =
    (a b c : RouteEntry)
    → Mem a t
    → Mem b t
    → Mem c t
    → is_after a b ≡ false
    → is_after b c ≡ false
    → is_after a c ≡ false

-- What the C standard says of `qsort`: the result has the same entries, and no entry stands before
-- one that the comparison function puts first, if that function is consistent.
pub record Sorts (qsort : List RouteEntry → List RouteEntry) (t : List RouteEntry) : Type 0 where
  pub perm : Perm (qsort t) t
  pub ordered :
      IsConsistent t
      → (i j : ℕ) (a b : RouteEntry) → i < j
      → get_elem? (qsort t) i ≡ some a
      → get_elem? (qsort t) j ≡ some b
      → is_after a b ≡ false

-- A route of the table to the address, or `NULL` where the table has none.
pub data IsRouteIn (t : List RouteEntry) (dest : ℕ) : Found → Type 0 where
  found : (e : RouteEntry) → Mem e t → Matches dest e → IsRouteIn t dest (route e)
  unreachable : ((e : RouteEntry) → Mem e t → ¬ Matches dest e) → IsRouteIn t dest null

mem_of_get_elem? :
    (xs : List RouteEntry) (i : ℕ) (e : RouteEntry) → get_elem? xs i ≡ some e → Mem e xs
mem_of_get_elem? [] i e h = cc
mem_of_get_elem? (x ∷ xs) zero e h = let same : x ≡ e = cc in rw same mem-cons_self
mem_of_get_elem? (x ∷ xs) (suc i) e h = mem-cons_of_mem x (mem_of_get_elem? xs i e h)

none_of_no_index :
    (dest : ℕ) (xs : List RouteEntry)
    → ((i : ℕ) (e : RouteEntry) → get_elem? xs i ≡ some e → ¬ Matches dest e)
    → (e : RouteEntry) → Mem e xs
    → ¬ Matches dest e
none_of_no_index dest [] none_at e m fits = not-mem-nil m
none_of_no_index dest (x ∷ xs) none_at e m fits =
    Or.elim (λ p. absurd p) (mem-cons.0 m) (λ same. none_at 0 x refl (rw same at fits))
      (λ later. none_of_no_index dest xs (λ i. none_at (suc i)) e later fits)

get_elem?-lt_length :
    (xs : List RouteEntry) (i : ℕ) (e : RouteEntry) → get_elem? xs i ≡ some e → i < length xs
get_elem?-lt_length [] i e h = absurd (cc)
get_elem?-lt_length (x ∷ xs) zero e h = omega arith
get_elem?-lt_length (x ∷ xs) (suc i) e h = omega (arith, get_elem?-lt_length xs i e h)

module _ (qsort : List RouteEntry → List RouteEntry) (t : List RouteEntry) (mask : ℕ)
    (sorts : Sorts qsort t) (one_mask : (e : RouteEntry) → Mem e t → e.mask ≡ mask)
    (small : (e : RouteEntry) → Mem e t → network e < 2 ^ 31) where
  consistent : IsConsistent t
  consistent a b c ma mb mc ab bc = ground (
    arith,
    is_after_iff a b (small a ma) (small b mb),
    is_after_iff b c (small b mb) (small c mc),
    is_after_iff a c (small a ma) (small c mc),
  )

  in_table : (i : ℕ) (e : RouteEntry) → get_elem? (qsort t) i ≡ some e → Mem e t
  in_table i e at = (Perm.mem_iff sorts.perm).0 (mem_of_get_elem? (qsort t) i e at)

  sorted-IsSearchable : IsSearchable (qsort t) mask
  sorted-IsSearchable = record {
    one_mask = λ i e at. one_mask e (in_table i e at);
    falls = λ i j a b le at_i at_j. elim (Bool-cases (ltb i j)) [
      | inl lt ↦
          let after = sorts.ordered consistent i j a b (ground arith) at_i at_j in
          let same = is_after_iff a b (small a (in_table i a at_i)) (small b (in_table j b at_j)) in
          ground arith
      | inr ge ↦ let ij : i ≡ j = ground arith in let ab : a ≡ b = cc in rw ab (omega arith)
    ];
  }

  in_original :
      (dest : ℕ) (r : Found) → IsAnswer (qsort t) dest 0 (length (qsort t)) r → IsRouteIn t dest r
  in_original dest _ (hit i e lo hi at fits) = found e (in_table i e at) fits
  in_original dest _ (miss no_match) = unreachable λ e m.
      none_of_no_index dest (qsort t)
        (λ i a at. no_match i a (omega arith) (get_elem?-lt_length (qsort t) i a at) at) e
        ((Perm.mem_iff sorts.perm).1 m)

  -- After `sort_rtable`, on a table with one mask whose networks are below `2 ^ 31`, the search
  -- returns an entry of the table that is a route to the address, and `NULL` only if none is.
  pub best_route-qsort : (dest : ℕ) → IsRouteIn t dest (best_route (qsort t) dest)
  best_route-qsort dest = in_original dest _ (best_route-IsAnswer sorted-IsSearchable dest)
