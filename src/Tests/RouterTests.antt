-- ===== src/Tests/RouterTests.antt =====
-- tema1: the checksums, the routing table and the ARP table on concrete inputs.
use mathlib.Core.List.{Mem, mem-cons, not-mem-nil}
use mathlib.Core.List.Perm
use mathlib.Core.Logic.Or
use protocoale_de_comunicati.Common.{
  ℕ, zero, suc, ◌<◌, ◌≡◌, refl, false, some, List, [], ◌∷◌, arith, htons, Memory, ok, fault, ◌>>=◌,
  get_elem?,
}
use native.Mathlib.Nat.{ℕ_set}
use native.Mathlib.Bridge.{le_prop}
use protocoale_de_comunicati.Router.Checksum.{ip_checksum}
use protocoale_de_comunicati.Router.Checksum.Rfc.{rfc_checksum, ip_checksum-eq-rfc_checksum}
use protocoale_de_comunicati.Router.Frames.{Mac, EtherHeader, eth_p_arp}
use protocoale_de_comunicati.Router.RouteTable.{RouteEntry, network, route, is_after, best_route}
use protocoale_de_comunicati.Router.RouteTable.Sort.{Sorts, IsRouteIn, best_route-qsort}
use protocoale_de_comunicati.Router.ArpTable.{ArpEntry, ArpTable, learn, get_arp_entry}
use protocoale_de_comunicati.Router.ArpTable.Bounds.{learn_overflows}

-- An odd number of bytes.
abbrev sample : List ℕ
sample = 0x45 ∷ 0x00 ∷ 0x00 ∷ 0x73 ∷ 0xc0 ∷ 0xa8 ∷ 0x07 ∷ []

-- The address makes no difference.
ip_checksum_addresses :
    (ip_checksum 0 sample ≡ ip_checksum 3 sample) × (ip_checksum 1 sample ≡ ip_checksum 2 sample)
unfolding ip_checksum
ip_checksum_addresses = (refl, refl)

ip_checksum-eq-rfc_checksum_example : ip_checksum 3 sample ≡ htons (rfc_checksum sample)
ip_checksum-eq-rfc_checksum_example =
    ip_checksum-eq-rfc_checksum 3 sample (omega arith) (omega arith)

abbrev mac_a : Mac
mac_a = record { byte0 = 2; byte1 = 0; byte2 = 0; byte3 = 0; byte4 = 0; byte5 = 0xa }

abbrev mac_b : Mac
mac_b = record { byte0 = 2; byte1 = 0; byte2 = 0; byte3 = 0; byte4 = 0; byte5 = 0xb }

abbrev arp_ether : EtherHeader
arp_ether = record { dhost = mac_a; shost = mac_b; ether_type = htons eth_p_arp }

abbrev empty_buffer : Memory
empty_buffer = λ _. 0

-- 192.1.4.0/24, 192.1.5.0/24 and 10.0.0.2/32 as a little-endian host holds them.
abbrev net_4 : RouteEntry
net_4 = record { prefix = 0x000401c0; next_hop = 0x020401c0; mask = 0x00ffffff; interface = 1 }

abbrev net_5 : RouteEntry
net_5 = record { prefix = 0x000501c0; next_hop = 0x020501c0; mask = 0x00ffffff; interface = 2 }

abbrev host_200 : RouteEntry
host_200 = record { prefix = 0xc80501c0; next_hop = 0x070501c0; mask = 0xffffffff; interface = 0 }

abbrev table : List RouteEntry
table = net_4 ∷ net_5 ∷ []

-- What the C library leaves of the table.
abbrev sorted : List RouteEntry
sorted = net_5 ∷ net_4 ∷ []

best_route_runs : best_route sorted 0x330401c0 ≡ route net_4
unfolding best_route
best_route_runs = refl

sorted_ordered :
    (i j : ℕ) (a b : RouteEntry)
    → i < j
    → get_elem? sorted i ≡ some a
    → get_elem? sorted j ≡ some b
    → is_after a b ≡ false
unfolding is_after
sorted_ordered zero zero a b h ea eb = absurd (omega arith)
sorted_ordered zero (suc zero) a b h ea eb =
    let is_a : net_5 ≡ a = cc in let is_b : net_4 ≡ b = cc in rw (← is_a, ← is_b) refl
sorted_ordered zero (suc (suc j)) a b h ea eb = cc
sorted_ordered (suc zero) zero a b h ea eb = absurd (omega arith)
sorted_ordered (suc zero) (suc zero) a b h ea eb = absurd (omega arith)
sorted_ordered (suc zero) (suc (suc j)) a b h ea eb = cc
sorted_ordered (suc (suc i)) j a b h ea eb = cc

sort_table : Sorts (λ _. sorted) table
sort_table = record { perm = Perm.swap net_4 net_5 []; ordered = λ _. sorted_ordered }

in_table :
    (P : RouteEntry → Type 0)
    → ((e : RouteEntry) → IsProp (P e))
    → P net_4
    → P net_5
    → (e : RouteEntry) → Mem e table
    → P e
in_table P prop a b e m =
    Or.elim (prop e) (mem-cons.0 m) (λ x. rw x a)
      λ m'. Or.elim (prop e) (mem-cons.0 m') (λ x. rw x b) (λ m''. absurd (not-mem-nil m''))

best_route-qsort_example : IsRouteIn table 0x330401c0 (best_route sorted 0x330401c0)
best_route-qsort_example =
    best_route-qsort (λ _. sorted) table 0x00ffffff sort_table
      (in_table (λ e. e.mask ≡ 0x00ffffff) (λ e. ℕ_set _ _) refl refl)
      (in_table (λ e. network e < 2147483648) (λ e. le_prop) (omega arith) (omega arith)) 0x330401c0

abbrev entry_a : ArpEntry
entry_a = record { ip = 0x0200000a; mac = mac_a }

abbrev entry_b : ArpEntry
entry_b = record { ip = 0x0300000a; mac = mac_b }

-- A table for two entries at first.
abbrev small_table : ArpTable
small_table = record { entries = entry_a ∷ []; bytes = 24; max_size = 2 }

abbrev roomy_table : ArpTable
roomy_table = record { entries = entry_a ∷ []; bytes = 1200; max_size = 100 }

-- The second entry makes the block 4 bytes long, for a limit of 4 entries.
learn_runs :
    (learn small_table entry_b
      ≡ ok (record { entries = entry_a ∷ entry_b ∷ []; bytes = 4; max_size = 4 }))
    × (get_arp_entry roomy_table 0x0200000a ≡ ok (some entry_a))
unfolding learn get_arp_entry
learn_runs = (refl, refl)

learn_overflows_example : (learn small_table entry_b >>= λ t'. learn t' entry_b) ≡ fault
learn_overflows_example = learn_overflows small_table entry_b entry_b (omega arith) refl
