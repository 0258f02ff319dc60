-- ===== src/Static/Forwarding.antt =====
-- What the loop of laboratoare/lab-04/router.c does with a packet.
use protocoale_de_comunicati.Common.{
  ℕ, ◌+◌, ◌<◌, ◌≡◌, refl, false, arith, none, some, List, ◌==◌, ntohs, Memory, read_bytes, ok,
  fault,
}
use protocoale_de_comunicati.Router.Checksum.{ip_checksum}
use protocoale_de_comunicati.Router.RouteTable.{RouteEntry}
use protocoale_de_comunicati.Router.ArpTable.{ArpEntry}
use protocoale_de_comunicati.Router.Frames.{
  Mac, Packet, send_packet, eth_p_ip, ether_type_of, ether_dhost, ether_shost, ip_ttl, ip_daddr,
}
use protocoale_de_comunicati.Router.Forward.{header_checksum, update_ttl, address_frame}
use protocoale_de_comunicati.Router.Forward.Header.{IsPayload, update_ttl-accepted}
use protocoale_de_comunicati.Static.{get_best_route, get_arp_entry, send_along, handle}

-- An IP packet with a right header that is not used up.
pub record IsAlive (m : Packet) : Type 0 where
  pub ether_type : ntohs (ether_type_of m.payload) ≡ eth_p_ip
  pub intact : header_checksum m.payload ≡ 0
  pub alive : 0 < ip_ttl m.payload

module _ (interface_mac : ℕ → Mac) (rtable : List RouteEntry) (arp_table : List ArpEntry)
    (m : Packet) (v : IsAlive m) (a : ArpEntry)
    (known : get_arp_entry arp_table (ip_daddr m.payload) ≡ some a) where
  -- A packet with a right header and a time to live above 0, to an address that has a route and an
  -- entry in the ARP table, goes out as one frame on the interface of the route: its header is
  -- accepted wherever the next router has it, its time to live is one less, and its Ethernet addresses
  -- are those of the entry and of the interface.
  handle_forwards :
      (e : RouteEntry) (address : ℕ)
      → IsPayload m.payload
      → get_best_route rtable (ip_daddr m.payload) ≡ some e
      → (p : Memory) × (handle interface_mac rtable arp_table m
          ≡ ok (some (send_packet e.interface (record m { payload = p }))))
        × (ip_checksum address (read_bytes p 14 20) ≡ 0)
        × (ip_ttl p + 1 ≡ ip_ttl m.payload)
        × (ether_dhost p ≡ a.mac)
        × (ether_shost p ≡ interface_mac e.interface)
  unfolding handle send_along address_frame update_ttl
  handle_forwards e address bytes routed =
      let live : (ip_ttl m.payload == 0) ≡ false = ground (arith, v.alive) in
      (
        address_frame (update_ttl m.payload) a.mac (interface_mac e.interface),
        rw (v.ether_type, v.intact, live, routed, known) refl,
        update_ttl-accepted address m.payload bytes,
        omega (arith, v.alive),
        refl,
        refl,
      )

  -- A packet with a right header and a time to live above 0, to an address that has an entry in the
  -- ARP table but no route, makes the program read through a null pointer.
  pub handle_faults :
      get_best_route rtable (ip_daddr m.payload) ≡ none
      → handle interface_mac rtable arp_table m ≡ fault
  unfolding handle send_along
  handle_faults unrouted =
      let live : (ip_ttl m.payload == 0) ≡ false = ground (arith, v.alive) in
      rw (v.ether_type, v.intact, live, unrouted, known) refl
