-- ===== src/Router/MainLoop/Kept.antt =====
-- What the body of the main loop of tema1/router.c may change, on every packet.
use protocoale_de_comunicati.Common.{
  ℕ, ◌+◌, ◌<◌, ◌≤◌, ◌≡◌, refl, inl, inr, Option, none, some, List, [], ◌∷◌, arith, ◌==◌,
  if◌then◌else◌, length, length-append, ntohs, Memory, Returns, Returns-mono, Returns-bind,
  Bool-cases, Option-cases,
}
use protocoale_de_comunicati.Router.Frames.{
  Packet, Frame, eth_p_ip, parse_arp, parse_icmp, ether_type_of, arp_op_of, arp_spa, arp_sha,
  arp_tpa, ip_daddr, icmp_type,
}
use protocoale_de_comunicati.Router.ArpTable.{ArpEntry, ArpTable, learn}
use protocoale_de_comunicati.Router.ArpTable.Bounds.{IsRoomy, learn-IsRoomy}
use protocoale_de_comunicati.Router.Forward.{Host, Router, Sent, forward_packet}
use protocoale_de_comunicati.Router.Forward.Known.{forward_packet-IsModest}
use protocoale_de_comunicati.Router.MainLoop.{
  handle_ip, handle_request, release, handle_reply, handle_arp, handle,
}

-- The entries that a packet adds to the ARP table: one for an ARP packet that is no request.
unfoldable pub learns : Memory → ℕ
learns buffer = if ntohs (ether_type_of buffer) == eth_p_ip then 0 else elim (parse_arp buffer) [
  | none ↦ 0
  | some arp_hdr ↦ if ntohs (arp_op_of buffer) == 1 then 0 else 1
]

-- The packets that may be released by a packet: those that wait, if it is such an ARP packet.
unfoldable pub releases : Router → Memory → ℕ
unfolding learns
releases r buffer = if learns buffer == 0 then 0 else length r.packets

-- What one packet may change: the routing table not at all, the ARP table by `added` entries within
-- its limit, and the queue and the frames sent by one at most.
pub record IsKept (r : Router) (added : ℕ) (s : Sent) : Type 0 where
  pub rtable : s.router.rtable ≡ r.rtable
  pub roomy : IsRoomy s.router.arp_table
  pub limit : s.router.arp_table.max_size ≡ r.arp_table.max_size
  pub entries : length s.router.arp_table.entries ≡ length r.arp_table.entries + added
  pub packets : length s.router.packets ≤ length r.packets + 1
  pub frames : length s.frames ≤ 1

kept :
    (r : Router) (m : Packet) (fs : List Frame)
    → IsRoomy r.arp_table
    → length fs ≤ 1
    → IsKept r 0 (record { router = r; packet = m; frames = fs })
kept r m fs v short = record {
  rtable = refl;
  roomy = v;
  limit = refl;
  entries = omega arith;
  packets = omega arith;
  frames = short;
}

forward_packet-IsKept :
    (h : Host) (r : Router) (m : Packet)
    → IsRoomy r.arp_table
    → Returns (IsKept r 0) (forward_packet h r m)
forward_packet-IsKept h r m v =
    Returns-mono (forward_packet h r m) (forward_packet-IsModest h r m v) λ s c. record {
      rtable = c.rtable;
      roomy = rw c.arp_table v;
      limit = rw c.arp_table refl;
      entries = rw c.arp_table (omega arith);
      packets = elim c.packets [
        | inl e ↦ rw e (omega arith)
        | inr e ↦ rw e (omega (arith, length-append r.packets (s.packet ∷ [])))
      ];
      frames = c.frames;
    }

handle_ip-IsKept :
    (h : Host) (r : Router) (m : Packet) (icmp_hdr : Option ℕ)
    → IsRoomy r.arp_table
    → Returns (IsKept r 0) (handle_ip h r m icmp_hdr)
unfolding handle_ip
handle_ip-IsKept h r m none v = forward_packet-IsKept h r m v
handle_ip-IsKept h r m (some _) v =
    elim (Bool-cases (ip_daddr m.payload == h.interface_ip m.interface)) [
      | inr other ↦ rw other (forward_packet-IsKept h r m v)
      | inl own ↦ rw own (elim (Bool-cases (icmp_type m.payload == 8)) [
        | inl echo ↦ rw echo (kept r m _ v (omega arith))
        | inr another ↦ rw another (kept r m [] v (omega arith))
      ])
    ]

handle_request-IsKept :
    (h : Host) (r : Router) (m : Packet) → IsRoomy r.arp_table → IsKept r 0 (handle_request h r m)
unfolding handle_request
handle_request-IsKept h r m v =
    elim (Bool-cases (arp_tpa m.payload == h.interface_ip m.interface)) [
      | inl own ↦ rw own (kept r _ _ v (omega arith))
      | inr other ↦ rw other (kept r m [] v (omega arith))
    ]

-- A table that has one entry more than the router's.
record HasOneMore (r : Router) (t : ArpTable) : Type 0 where
  roomy : IsRoomy t
  entries : length t.entries ≡ length r.arp_table.entries + 1
  limit : t.max_size ≡ r.arp_table.max_size

release-IsKept :
    (h : Host) (r : Router) (m : Packet) (t : ArpTable) (waiting : List Packet)
    → HasOneMore r t
    → length waiting ≡ 0
    → Returns (IsKept r 1) (release h (record r { arp_table = t }) m waiting)
unfolding release
release-IsKept h r m t [] v short = record {
  rtable = refl;
  roomy = v.roomy;
  limit = v.limit;
  entries = v.entries;
  packets = omega arith;
  frames = omega arith;
}
release-IsKept h r m t (p ∷ ps) v short = absurd (omega (arith, short))

handle_reply-IsKept :
    (h : Host) (r : Router) (m : Packet)
    → IsRoomy r.arp_table
    → length r.arp_table.entries + 1 < r.arp_table.max_size
    → length r.packets ≡ 0
    → Returns (IsKept r 1) (handle_reply h r m)
unfolding handle_reply
handle_reply-IsKept h r m v more idle =
    let e : ArpEntry = record { ip = arp_spa m.payload; mac = arp_sha m.payload } in
    Returns-bind (HasOneMore r) (IsKept r 1) (learn r.arp_table e)
      (λ t. release h (record r { arp_table = t }) m r.packets)
      (Returns-mono (learn r.arp_table e) (learn-IsRoomy r.arp_table e v more)
        λ t (a, b, c). record { roomy = a; entries = b; limit = c })
      λ t one. release-IsKept h r m t r.packets one idle

-- While the ARP table has room for one entry more below its limit, and unless an ARP packet that is no
-- request comes while a packet waits, the body of the loop gets as far as its `write` on every packet
-- and makes no access outside its memory before it: the routing table stays, the ARP table grows by one
-- entry on an ARP packet that is no request and not otherwise, at most one packet more waits, and at
-- most one frame is given to `write`.
pub handle-IsKept :
    (h : Host) (r : Router) (m : Packet)
    → IsRoomy r.arp_table
    → length r.arp_table.entries + learns m.payload < r.arp_table.max_size
    → releases r m.payload ≡ 0
    → Returns (IsKept r (learns m.payload)) (handle h r m)
unfolding handle learns releases
handle-IsKept h r m v more idle = elim (Bool-cases (ntohs (ether_type_of m.payload) == eth_p_ip)) [
  | inl ip ↦ rw ip (handle_ip-IsKept h r m (parse_icmp m.payload) v)
  | inr another ↦ rw another (elim (Option-cases (parse_arp m.payload)) [
    | inl e ↦ rw e (kept r m [] v (omega arith))
    | inr (o, e) ↦ rw e (elim (Bool-cases (ntohs (arp_op_of m.payload) == 1)) [
      | inl request ↦ rw (request, handle_arp) (handle_request-IsKept h r m v)
      | inr reply ↦
          let one : learns m.payload ≡ 1 = rw (another, e, reply) refl in
          let none_waits : length r.packets ≡ 0 = ground (arith, one, idle) in
          rw (reply, handle_arp) (handle_reply-IsKept h r m v (omega arith) none_waits)
    ])
  ])
]
