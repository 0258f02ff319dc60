-- ===== src/Router/MainLoop/Waiting.antt =====
-- ARP replies in tema1/router.c, and the packets that waited for them.
use protocoale_de_comunicati.Common.{
  ◌+◌, ◌<◌, ◌≡◌, refl, ap, none, some, [], ◌∷◌, ok, Returns, Returns-bind, ◌>>=◌,
}
use protocoale_de_comunicati.Router.Frames.{Packet, send_packet, ip_ttl, arp_spa, arp_sha}
use protocoale_de_comunicati.Router.RouteTable.{RouteEntry}
use protocoale_de_comunicati.Router.ArpTable.{ArpEntry, ArpTable, learn, get_arp_entry}
use protocoale_de_comunicati.Router.Forward.{
  Host, Router, icmp_error, icmp_time_exceeded, forward_packet,
}
use protocoale_de_comunicati.Router.Forward.Header.{IsPayload}
use protocoale_de_comunicati.Router.Forward.Known.{IsForwardable}
use protocoale_de_comunicati.Router.Forward.Waiting.{
  waiting, forward_packet-waits, forward_packet-waiting, forward_packet-expires,
}
use protocoale_de_comunicati.Router.MainLoop.{release, handle_reply}

-- The packet `m`, forwardable along `e`, comes when no packet waits and the address of its next hop is
-- unknown; the reply `q` gives the table `t`; and the dead local variable of `forward_packet` still
-- holds what was put there.
pub record IsReleased (h : Host) (r : Router) (m q : Packet) (e : RouteEntry) (t : ArpTable)
    : Type 0 where
  pub bytes : IsPayload m.payload
  pub forwardable : IsForwardable r m e
  pub unknown : get_arp_entry r.arp_table e.next_hop ≡ ok none
  pub idle : r.packets ≡ []
  pub learnt : learn r.arp_table (record { ip = arp_spa q.payload; mac = arp_sha q.payload }) ≡ ok t
  pub copy : (p : Packet) → h.stale_copy p ≡ some p

module _ (h : Host) (r : Router) (m q : Packet) (e : RouteEntry) (t : ArpTable)
    (v : IsReleased h r m q e t) where
  after : Router
  after = record { rtable = r.rtable; arp_table = t; packets = [] }

  released :
      (forward_packet h r m >>= λ s. handle_reply h s.router q)
      ≡ (forward_packet h after (waiting m) >>= λ s. ok (record s { packet = q }))
  unfolding handle_reply after
  released =
      rw
        (
          forward_packet-waits h r m e v.forwardable v.unknown,
          v.idle,
          v.learnt,
          release,
          v.copy (waiting m),
        )
        refl

  -- A packet that comes when no packet waits and the address of its next hop is unknown, and then an
  -- ARP reply that gives the address. If the local variable of `forward_packet`, which is dead by then,
  -- still holds the packet, it leaves, but its time to live is two less than on arrival.
  pub handle_reply_ages_twice :
      (a : ArpEntry)
      → 2 < ip_ttl m.payload
      → get_arp_entry t e.next_hop ≡ ok (some a)
      → Returns
          (λ s.
            (s.router.packets ≡ [])
            × ((w : Packet) × (s.frames ≡ send_packet e.interface w ∷ [])
                × (ip_ttl w.payload + 2 ≡ ip_ttl m.payload)))
          (forward_packet h r m >>= λ s. handle_reply h s.router q)
  unfolding after
  handle_reply_ages_twice a young known = rw released (
      Returns-bind _ _ (forward_packet h after (waiting m)) (λ s. ok (record s { packet = q }))
        (forward_packet-waiting h r after m e v.bytes refl v.forwardable a young known)
        λ s c. (ap (λ (x : Router). x.packets) c.0, (s.packet, c.1, c.2)))

  -- A packet that came in with a time to live of 2, which would have been forwarded at once had the
  -- address been known, is not: its sender gets an ICMP error for the time exceeded.
  handle_reply_expires :
      ip_ttl m.payload ≡ 2
      → (forward_packet h r m >>= λ s. handle_reply h s.router q)
        ≡ ok (record {
          router = record { rtable = r.rtable; arp_table = t; packets = [] };
          packet = q;
          frames = icmp_error (waiting m) icmp_time_exceeded ∷ [];
        })
  unfolding after
  handle_reply_expires last =
      rw (released, forward_packet-expires h r after m e v.bytes refl v.forwardable last)
