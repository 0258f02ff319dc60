-- ===== src/Static.antt =====
-- The static router of laboratoare/lab-04/router.c, on the frames of the other router. The entries of
-- its tables and the bytes of its checksum are the same.
pub mod Longest
pub mod Forwarding
use protocoale_de_comunicati.Common.{
  ℕ, zero, suc, ◌+◌, ◌*◌, ◌/◌, ◌%◌, Bool, true, false, Option, none, some, List, [], ◌∷◌, length,
  bit_and, ◌==◌, ltb, if◌then◌else◌, ntohs, Outcome, ok, fault,
}
use protocoale_de_comunicati.Router.RouteTable.{RouteEntry, network}
use protocoale_de_comunicati.Router.ArpTable.{ArpEntry}
use protocoale_de_comunicati.Router.Frames.{
  Mac, Packet, Frame, send_packet, eth_p_ip, ether_type_of, ip_ttl, ip_daddr,
}
use protocoale_de_comunicati.Router.Forward.{header_checksum, update_ttl, address_frame}

-- The first entry that matches.
unfoldable pub get_best_route : List RouteEntry → (dest_ip : ℕ) → Option RouteEntry
get_best_route [] dest_ip = none
get_best_route (e ∷ es) dest_ip =
    let rest = get_best_route es dest_ip in
    if bit_and dest_ip e.mask == network e then some e else rest

unfoldable pub get_arp_entry : List ArpEntry → (ip : ℕ) → Option ArpEntry
get_arp_entry [] ip = none
get_arp_entry (a ∷ more) ip =
    let rest = get_arp_entry more ip in if ip == a.ip then some a else rest

-- `ntohl` of a `uint32_t`.
unfoldable pub ntohl : ℕ → ℕ
ntohl x = x % 256 * 16777216 + x / 256 % 256 * 65536 + x / 65536 % 256 * 256 + x / 16777216 % 256

-- The inner loop of `sort_rtable` on the entry `i` and those after it: an entry with a longer mask
-- changes places with the entry `i`.
unfoldable pub exchange : RouteEntry → List RouteEntry → RouteEntry × List RouteEntry
exchange x [] = (x, [])
exchange x (y ∷ ys) =
    let (first, rest) = exchange y ys in
    let (first', rest') = exchange x ys in
    if ltb (ntohl x.mask) (ntohl y.mask) then (first, x ∷ rest) else (first', y ∷ rest')

-- The outer loop, with as many turns as there are entries.
unfoldable pub sort_from : (turns : ℕ) → List RouteEntry → List RouteEntry
sort_from zero t = t
sort_from (suc turns) [] = []
sort_from (suc turns) (x ∷ xs) = let (first, rest) = exchange x xs in first ∷ sort_from turns rest

unfoldable pub sort_rtable : List RouteEntry → List RouteEntry
unfolding exchange sort_from
sort_rtable t = sort_from (length t) t

-- The end of the body of the loop: the frame sent. Without a route the code reads through `NULL`.
unfoldable pub send_along :
    (interface_mac : ℕ → Mac)
    → Packet
    → Option RouteEntry
    → Option ArpEntry
    → Outcome (Option Frame)
send_along interface_mac m entry none = ok none
send_along interface_mac m none (some a) = fault
send_along interface_mac m (some e) (some a) = ok (
    some (
      send_packet e.interface (record m {
        payload = address_frame (update_ttl m.payload) a.mac (interface_mac e.interface);
      })))

-- The body of the loop of `main`; `interface_mac` is `get_interface_mac`.
unfoldable pub handle :
    (interface_mac : ℕ → Mac) → List RouteEntry → List ArpEntry → Packet → Outcome (Option Frame)
unfolding send_along get_best_route get_arp_entry
handle interface_mac rtable arp_table m =
    if ntohs (ether_type_of m.payload) == eth_p_ip
    then if header_checksum m.payload == 0
      then if ip_ttl m.payload == 0
        then ok none
        else send_along interface_mac m (get_best_route rtable (ip_daddr m.payload))
            (get_arp_entry arp_table (ip_daddr m.payload))
      else ok none
    else ok none
