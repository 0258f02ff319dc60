-- ===== src/Router/RouteTable.antt =====
-- The routing table: tema1/parser.h, and `get_best_route`, `compar` and `sort_rtable` of
-- tema1/router.c.
pub mod Search
pub mod Sort
pub mod Total
use protocoale_de_comunicati.Common.{
  ℕ, zero, suc, ◌+◌, ◌-◌, ◌/◌, ◌%◌, ◌^◌, Option, none, some, List, bit_and, ◌==◌, ltb, leb,
  if◌then◌else◌, Bool, ◌&&◌, get_elem?, length,
}

-- `struct route_table_entry`. Addresses and masks are `uint32_t` as `inet_addr` leaves them.
pub record RouteEntry : Type 0 where
  pub prefix : ℕ
  pub next_hop : ℕ
  pub mask : ℕ
  pub interface : ℕ

-- `mask & prefix`, by which the table is sorted.
abbrev pub network : RouteEntry → ℕ
network e = bit_and e.mask e.prefix

-- What `get_best_route` returns: `&rtable[i]`, `NULL`, or nothing, after a read outside the table
-- or with the fuel used up.
pub data Found : Type 0 where
  route : RouteEntry → Found
  null : Found
  bad_read : Found
  out_of_fuel : Found

-- `stop` is `end + 1`, so that the empty range with `end = -1` has a number: `start > end` is
-- `stop ≤ start`, and `mid - 1` for the end is `mid` for `stop`. The fuel bounds the recursion.
unfoldable pub get_best_route : ℕ → List RouteEntry → (dest_ip start stop : ℕ) → Found
get_best_route zero rtable dest_ip start stop = out_of_fuel
get_best_route (suc fuel) rtable dest_ip start stop =
    let mid = (start + stop - 1) / 2 in
    let below = get_best_route fuel rtable dest_ip start mid in
    let above = get_best_route fuel rtable dest_ip (mid + 1) stop in
    if leb stop start then null else elim (get_elem? rtable mid) [
      | none ↦ bad_read
      | some e ↦
          if bit_and dest_ip e.mask == network e
          then route e
          else if ltb (network e) (bit_and dest_ip e.mask)
          then below
          else above
    ]

-- The call in `forward_packet`: `get_best_route(daddr, 0, rtable_size - 1)`.
unfoldable pub best_route : List RouteEntry → (dest_ip : ℕ) → Found
unfolding get_best_route
best_route rtable dest_ip = get_best_route (suc (length rtable)) rtable dest_ip 0 (length rtable)

-- `compar`: the difference of two `uint32_t`, read as an `int`. This is its bit pattern, which is
-- negative from `2 ^ 31` on.
unfoldable pub compar : RouteEntry → RouteEntry → ℕ
compar r1 r2 = (network r2 + 2 ^ 32 - network r1) % 2 ^ 32

-- `compar(r1, r2) > 0`, where `qsort` must put `r2` first.
unfoldable pub is_after : RouteEntry → RouteEntry → Bool
unfolding compar
is_after r1 r2 = ltb 0 (compar r1 r2) && ltb (compar r1 r2) (2 ^ 31)
