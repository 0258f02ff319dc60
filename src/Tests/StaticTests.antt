-- ===== src/Tests/StaticTests.antt =====
-- The theorems on the static router, each applied to a packet and small tables.
use protocoale_de_comunicati.Common.{◌≡◌, refl, some, [], ◌∷◌, arith, fault}
use protocoale_de_comunicati.Router.Checksum.{ip_checksum}
use protocoale_de_comunicati.Router.RouteTable.{RouteEntry}
use protocoale_de_comunicati.Router.ArpTable.{ArpEntry}
use protocoale_de_comunicati.Static.{get_best_route, get_arp_entry, ntohl, sort_rtable, handle}
use protocoale_de_comunicati.Static.Longest.{IsBest, get_best_route-IsBest}
use protocoale_de_comunicati.Static.Forwarding.{IsAlive, handle_faults}
use protocoale_de_comunicati.Tests.LoopTests.{mac_0, mac_a, net, far}

-- 192.1.0.0/16 in front of 192.1.4.0/24.
abbrev wide : RouteEntry
wide = record { prefix = 0x000001c0; next_hop = 0; mask = 0x0000ffff; interface = 2 }

get_best_route-IsBest_example :
    IsBest 0x330401c0 (wide ∷ net ∷ []) (get_best_route (sort_rtable (wide ∷ net ∷ [])) 0x330401c0)
get_best_route-IsBest_example = get_best_route-IsBest 0x330401c0 (wide ∷ net ∷ [])

longest_test : get_best_route (sort_rtable (wide ∷ net ∷ [])) 0x330401c0 ≡ some net
unfolding get_best_route sort_rtable ntohl
longest_test = refl

-- The host that the packet goes to.
abbrev goal : ArpEntry
goal = record { ip = 0x330401c0; mac = mac_a }

far-IsAlive : IsAlive far
unfolding ip_checksum
far-IsAlive = record { ether_type = refl; intact = refl; alive = omega arith }

handle_faults_example : handle (λ _. mac_0) [] (goal ∷ []) far ≡ fault
unfolding get_best_route get_arp_entry
handle_faults_example = handle_faults (λ _. mac_0) [] (goal ∷ []) far far-IsAlive goal refl refl
