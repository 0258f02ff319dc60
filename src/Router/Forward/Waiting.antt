-- ===== src/Router/Forward/Waiting.antt =====
-- Packets that `forward_packet` of tema1/router.c puts in the queue, and their second call.
use protocoale_de_comunicati.Common.{
  ◌+◌, ◌<◌, ◌≡◌, refl, true, none, some, [], ◌∷◌, ◌++◌, arith, ◌==◌, leb, ok, Returns, Returns-mono,
}
use protocoale_de_comunicati.Router.Frames.{Packet, send_packet, ip_ttl}
use protocoale_de_comunicati.Router.RouteTable.{RouteEntry}
use protocoale_de_comunicati.Router.ArpTable.{ArpEntry, get_arp_entry}
use protocoale_de_comunicati.Router.Forward.{
  Host, Router, header_checksum, update_ttl, icmp_error, arp_request, icmp_time_exceeded,
  send_or_wait, forward_along, forward_packet,
}
use protocoale_de_comunicati.Router.Forward.Header.{
  IsPayload, update_ttl-accepted, ip_ttl-update_ttl, update_ttl-IsPayload,
}
use protocoale_de_comunicati.Router.Forward.Known.{
  IsForwardable, forward_packet-along, forward_packet-known,
}

-- The packet as it waits: its time to live is already one less.
abbrev pub waiting : Packet → Packet
waiting m = record m { payload = update_ttl m.payload }

-- Without an entry for the next hop the packet goes behind the waiting ones, with its header brought
-- up to date, and the only frame sent is an ARP request.
pub forward_packet-waits :
    (h : Host) (r : Router) (m : Packet) (e : RouteEntry)
    → IsForwardable r m e
    → get_arp_entry r.arp_table e.next_hop ≡ ok none
    → forward_packet h r m
      ≡ ok (record {
        router = record r { packets = r.packets ++ (waiting m ∷ []) };
        packet = waiting m;
        frames = arp_request h e ∷ [];
      })
unfolding forward_along send_or_wait
forward_packet-waits h r m e v unknown = rw (forward_packet-along h r m e v, forward_along, unknown)

module _ (h : Host) (r r' : Router) (m : Packet) (e : RouteEntry) (bytes : IsPayload m.payload)
    (same : r'.rtable ≡ r.rtable) (v : IsForwardable r m e) where
  waiting-IsForwardable : 2 < ip_ttl m.payload → IsForwardable r' (waiting m) e
  unfolding update_ttl
  waiting-IsForwardable young = record {
    intact = update_ttl-accepted 18 m.payload bytes;
    alive = omega (arith, ip_ttl-update_ttl m.payload);
    routed = rw same v.routed;
  }

  -- What the second call of `forward_packet` sends for a packet that has waited.
  pub forward_packet-waiting :
      (a : ArpEntry)
      → 2 < ip_ttl m.payload
      → get_arp_entry r'.arp_table e.next_hop ≡ ok (some a)
      → Returns
          (λ s.
            (s.router ≡ r')
            × (s.frames ≡ send_packet e.interface s.packet ∷ [])
            × (ip_ttl s.packet.payload + 2 ≡ ip_ttl m.payload))
          (forward_packet h r' (waiting m))
  forward_packet-waiting a young known =
      Returns-mono (forward_packet h r' (waiting m))
        (forward_packet-known h r' (waiting m) e a 18 (update_ttl-IsPayload m.payload bytes)
          (waiting-IsForwardable young) known)
        λ s c. (c.router, c.frames, omega (arith, c.ttl, ip_ttl-update_ttl m.payload))

  pub forward_packet-expires :
      ip_ttl m.payload ≡ 2
      → forward_packet h r' (waiting m)
        ≡ ok (record {
          router = r';
          packet = waiting m;
          frames = icmp_error (waiting m) icmp_time_exceeded ∷ [];
        })
  unfolding forward_packet
  forward_packet-expires last =
      let intact : (header_checksum (update_ttl m.payload) == 0) ≡ true =
        rw (update_ttl-accepted 18 m.payload bytes) refl in
      let old : leb (ip_ttl (update_ttl m.payload)) 1 ≡ true =
        ground (arith, ip_ttl-update_ttl m.payload) in
      rw (intact, old)
