-- ===== src/Router/Forward/Known.antt =====
-- `forward_packet` of tema1/router.c: what it sends, and that it never leaves its memory.
use protocoale_de_comunicati.Common.{
  ℕ, ◌+◌, ◌<◌, ◌≤◌, ◌≡◌, refl, ◌⊎◌, inl, inr, true, false, Option, none, some, List, [], ◌∷◌, ◌++◌,
  arith, ◌==◌, leb, length, read_bytes, ok, fault, Returns, Bool-cases,
}
use protocoale_de_comunicati.Router.Checksum.{ip_checksum}
use protocoale_de_comunicati.Router.Frames.{
  Packet, Frame, send_packet, ip_ttl, ip_daddr, ether_dhost, ether_shost,
}
use protocoale_de_comunicati.Router.RouteTable.{
  RouteEntry, Found, route, null, bad_read, out_of_fuel, best_route,
}
use protocoale_de_comunicati.Router.RouteTable.Total.{IsSound, best_route-IsSound}
use protocoale_de_comunicati.Router.ArpTable.{ArpEntry, get_arp_entry}
use protocoale_de_comunicati.Router.ArpTable.Bounds.{
  IsRoomy, first_entry, get_arp_entry-first_entry,
}
use protocoale_de_comunicati.Router.Forward.{
  Host, Router, Sent, header_checksum, update_ttl, address_frame, icmp_error, icmp_dest_unreach,
  send_or_wait, forward_along, forward_packet,
}
use protocoale_de_comunicati.Router.Forward.Header.{IsPayload, update_ttl-accepted}

-- A packet whose header is right and that may live on, with a route.
pub record IsForwardable (r : Router) (m : Packet) (e : RouteEntry) : Type 0 where
  pub intact : header_checksum m.payload ≡ 0
  pub alive : 1 < ip_ttl m.payload
  pub routed : best_route r.rtable (ip_daddr m.payload) ≡ route e

pub forward_packet-along :
    (h : Host) (r : Router) (m : Packet) (e : RouteEntry)
    → IsForwardable r m e
    → forward_packet h r m ≡ forward_along h r m e
unfolding forward_packet
forward_packet-along h r m e v =
    let intact : (header_checksum m.payload == 0) ≡ true = rw v.intact refl in
    let alive : leb (ip_ttl m.payload) 1 ≡ false = ground (arith, v.alive) in
    rw (intact, alive, v.routed)

-- What has been sent for the packet `m`: itself, in one frame, along the route `e` to the next hop `a`.
pub record IsForwarded (h : Host) (r : Router) (m : Packet) (e : RouteEntry) (a : ArpEntry)
    (address : ℕ) (s : Sent) : Type 0 where
  pub router : s.router ≡ r
  pub frames : s.frames ≡ send_packet e.interface s.packet ∷ []
  pub len : s.packet.len ≡ m.len
  pub ttl : ip_ttl s.packet.payload + 1 ≡ ip_ttl m.payload
  pub accepted : ip_checksum address (read_bytes s.packet.payload 14 20) ≡ 0
  pub dhost : ether_dhost s.packet.payload ≡ a.mac
  pub shost : ether_shost s.packet.payload ≡ h.interface_mac e.interface
  pub front : read_bytes s.packet.payload 12 10 ≡ read_bytes m.payload 12 10
  pub protocol : s.packet.payload 23 ≡ m.payload 23
  pub back : (i : ℕ) → s.packet.payload (26 + i) ≡ m.payload (26 + i)

-- A packet with a right header, a time to live above 1, a route, and a next hop in the ARP table goes
-- out as one frame, on the interface of the route, of the length received. The time to live is one
-- less, the header is accepted by the next router, the Ethernet addresses are the next hop's and the
-- interface's, every other byte is as received, and the router's tables and queue are unchanged.
pub forward_packet-known :
    (h : Host) (r : Router) (m : Packet) (e : RouteEntry) (a : ArpEntry) (address : ℕ)
    → IsPayload m.payload
    → IsForwardable r m e
    → get_arp_entry r.arp_table e.next_hop ≡ ok (some a)
    → Returns (IsForwarded h r m e a address) (forward_packet h r m)
unfolding forward_along send_or_wait address_frame update_ttl
forward_packet-known h r m e a address bytes v known =
    rw (forward_packet-along h r m e v, forward_along, known)
      (record {
        router = refl;
        frames = refl;
        len = refl;
        ttl = omega (arith, v.alive);
        accepted = update_ttl-accepted address m.payload bytes;
        dhost = refl;
        shost = refl;
        front = refl;
        protocol = refl;
        back = λ i. ground arith;
      })

-- What a call of `forward_packet` may leave: the tables are as before, one packet at most has been
-- put behind the waiting ones, and one frame at most has been given to `write`.
pub record IsModest (r : Router) (s : Sent) : Type 0 where
  pub rtable : s.router.rtable ≡ r.rtable
  pub arp_table : s.router.arp_table ≡ r.arp_table
  pub packets : (s.router.packets ≡ r.packets) ⊎ (s.router.packets ≡ r.packets ++ (s.packet ∷ []))
  pub frames : length s.frames ≤ 1

forward_along-IsModest :
    (h : Host) (r : Router) (m : Packet) (e : RouteEntry)
    → IsRoomy r.arp_table
    → Returns (IsModest r) (forward_along h r m e)
unfolding forward_along send_or_wait
forward_along-IsModest h r m e v =
    rw (get_arp_entry-first_entry r.arp_table e.next_hop v)
      (go (first_entry r.arp_table.entries e.next_hop))
  where
    go :
        (o : Option ArpEntry)
        → IsModest r (send_or_wait h r (record m { payload = update_ttl m.payload }) e o)
    go none = record { rtable = refl; arp_table = refl; packets = inr refl; frames = omega arith }
    go (some a) = record {
      rtable = refl;
      arp_table = refl;
      packets = inl refl;
      frames = omega arith;
    }

unmoved :
    (r : Router) (m : Packet) (fs : List Frame)
    → length fs ≤ 1
    → IsModest r (record { router = r; packet = m; frames = fs })
unmoved r m fs short = record {
  rtable = refl;
  arp_table = refl;
  packets = inl refl;
  frames = short;
}

-- On every packet, with an ARP table whose block has room for its entries, `forward_packet` gets
-- as far as its `write`: it makes no access outside its memory, leaves the tables as they were, puts one
-- packet at most behind the waiting ones, and gives one frame at most to `write`.
pub forward_packet-IsModest :
    (h : Host) (r : Router) (m : Packet)
    → IsRoomy r.arp_table
    → Returns (IsModest r) (forward_packet h r m)
unfolding forward_packet
forward_packet-IsModest h r m v = elim (Bool-cases (header_checksum m.payload == 0)) [
  | inr wrong ↦ rw wrong (unmoved r m [] (omega arith))
  | inl right ↦ rw right (elim (Bool-cases (leb (ip_ttl m.payload) 1)) [
    | inl old ↦ rw old (unmoved r m _ (omega arith))
    | inr alive ↦ rw alive (
        go (best_route r.rtable (ip_daddr m.payload))
          (best_route-IsSound r.rtable (ip_daddr m.payload)))
  ])
]
  where
    go :
        (f : Found)
        → IsSound r.rtable (ip_daddr m.payload) f
        → Returns (IsModest r) (elim f [
          | null ↦
              ok (record { router = r; packet = m; frames = icmp_error m icmp_dest_unreach ∷ [] })
          | route e ↦ forward_along h r m e
          | bad_read ↦ fault
          | out_of_fuel ↦ fault
        ])
    go null sound = unmoved r m _ (omega arith)
    go (route e) sound = forward_along-IsModest h r m e v
    go bad_read sound = sound
    go out_of_fuel sound = sound
