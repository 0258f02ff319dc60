-- ===== src/Router/Forward.antt =====
-- `forward_packet` of tema1/router.c.
pub mod Header
pub mod Known
pub mod Waiting
use protocoale_de_comunicati.Common.{
  ℕ, zero, suc, ◌+◌, ◌-◌, ◌*◌, ◌/◌, ◌%◌, Option, none, some, Bool, List, [], ◌∷◌, ◌++◌, ◌==◌, leb,
  ltb, if◌then◌else◌, bytes16, htons, Memory, store, write_bytes, read_bytes, Outcome, ok, exited,
  fault, ◌>>=◌,
}
use protocoale_de_comunicati.Router.Checksum.{ip_checksum}
use protocoale_de_comunicati.Router.Frames.{
  Mac, mac_bytes, Packet, Frame, EtherHeader, build_ethhdr, eth_p_arp, send_packet, send_icmp_error,
  send_arp, ether_dhost, ether_shost, ip_ttl, ip_saddr, ip_daddr,
}
use protocoale_de_comunicati.Router.RouteTable.{
  RouteEntry, Found, route, null, bad_read, out_of_fuel, best_route,
}
use protocoale_de_comunicati.Router.ArpTable.{ArpEntry, ArpTable, get_arp_entry}

-- What the router asks of the kernel and of its stack. `interface_ip` is `inet_aton` of
-- `get_interface_ip`, `interface_mac` is `get_interface_mac`, both by `ioctl`. The packet that waits
-- for an ARP reply is a local variable of a call that has returned: `stale_copy` is what an access
-- through the pointer to it finds at this moment, `none` where it goes wrong.
pub record Host : Type 0 where
  pub interface_ip : ℕ → ℕ
  pub interface_mac : ℕ → Mac
  pub stale_copy : Packet → Option Packet

-- The globals of router.c. `packets` holds the pointers that `queue_enq` was given, each as the
-- packet that it pointed to at that moment.
pub record Router : Type 0 where
  pub rtable : List RouteEntry
  pub arp_table : ArpTable
  pub packets : List Packet

-- What a call leaves: the globals, the packet that it changed in place, and the frames it sent.
pub record Sent : Type 0 where
  pub router : Router
  pub packet : Packet
  pub frames : List Frame

abbrev pub icmp_time_exceeded : ℕ
icmp_time_exceeded = 11

abbrev pub icmp_dest_unreach : ℕ
icmp_dest_unreach = 3

abbrev pub broadcast_mac : Mac
broadcast_mac = record {
  byte0 = 255;
  byte1 = 255;
  byte2 = 255;
  byte3 = 255;
  byte4 = 255;
  byte5 = 255;
}

-- `ip_checksum(ip_hdr, sizeof(struct iphdr))`: the header is at byte 18 of a `packet`, which is
-- aligned to four bytes.
abbrev pub header_checksum : Memory → ℕ
header_checksum payload = ip_checksum 18 (read_bytes payload 14 20)

-- `ttl--`, `check = 0`, and the new checksum. The time to live is not 0 here.
unfoldable pub update_ttl : Memory → Memory
update_ttl payload =
    let aged = store payload 22 (ip_ttl payload - 1) in
    let cleared = write_bytes aged 24 (0 ∷ 0 ∷ []) in
    write_bytes cleared 24 (bytes16 (header_checksum cleared))

-- An ICMP error to the sender of the packet, in the name of the address that it went to.
unfoldable pub icmp_error : Packet → (type : ℕ) → Frame
icmp_error m type =
    send_icmp_error (ip_saddr m.payload) (ip_daddr m.payload) (ether_dhost m.payload)
      (ether_shost m.payload) type 0 m.interface

-- The ARP request for the next hop of a route.
unfoldable pub arp_request : Host → RouteEntry → Frame
arp_request h e =
    send_arp e.next_hop (h.interface_ip e.interface)
      (build_ethhdr (h.interface_mac e.interface) broadcast_mac (htons eth_p_arp)) e.interface
      (htons 1)

-- The two `memcpy` into the Ethernet header: destination, then source.
unfoldable pub address_frame : Memory → (dst src : Mac) → Memory
address_frame payload dst src =
    write_bytes (write_bytes payload 0 (mac_bytes dst)) 6 (mac_bytes src)

-- The end of `forward_packet`, with the route found and the header brought up to date.
unfoldable pub send_or_wait : Host → Router → Packet → RouteEntry → Option ArpEntry → Sent
send_or_wait h r m e none = record {
  router = record r { packets = r.packets ++ (m ∷ []) };
  packet = m;
  frames = arp_request h e ∷ [];
}
send_or_wait h r m e (some a) =
    let m' = record m { payload = address_frame m.payload a.mac (h.interface_mac e.interface) } in
    record { router = r; packet = m'; frames = send_packet e.interface m' ∷ [] }

unfoldable pub forward_along : Host → Router → Packet → RouteEntry → Outcome Sent
unfolding send_or_wait update_ttl
forward_along h r m e = do
  a ← get_arp_entry r.arp_table e.next_hop
  ok (send_or_wait h r (record m { payload = update_ttl m.payload }) e a)

unfoldable pub forward_packet : Host → Router → Packet → Outcome Sent
unfolding forward_along icmp_error
forward_packet h r m =
    if header_checksum m.payload == 0
    then if leb (ip_ttl m.payload) 1
      then ok (record { router = r; packet = m; frames = icmp_error m icmp_time_exceeded ∷ [] })
      else elim (best_route r.rtable (ip_daddr m.payload)) [
        | null ↦
            ok (record { router = r; packet = m; frames = icmp_error m icmp_dest_unreach ∷ [] })
        | route e ↦ forward_along h r m e
        | bad_read ↦ fault
        | out_of_fuel ↦ fault
      ]
    else ok (record { router = r; packet = m; frames = [] })
