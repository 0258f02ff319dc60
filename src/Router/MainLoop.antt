-- ===== src/Router/MainLoop.antt =====
-- `get_packet` of tema1/skel.c and the main loop of tema1/router.c.
pub mod Replies
pub mod Kept
pub mod Safety
pub mod Waiting
use protocoale_de_comunicati.Common.{
  ℕ, zero, suc, ◌+◌, Option, none, some, Bool, List, [], ◌∷◌, ◌++◌, ◌==◌, if◌then◌else◌, length,
  htons, ntohs, Memory, write_bytes, Outcome, ok, exited, fault, ◌>>=◌,
}
use protocoale_de_comunicati.Router.Frames.{
  Mac, mac_at, Packet, Frame, EtherHeader, eth_p_ip, send_icmp, send_arp, parse_arp, parse_icmp,
  ether_dhost, ether_shost, ether_type_of, ip_saddr, ip_daddr, arp_op_of, arp_sha, arp_spa, arp_tpa,
  icmp_type, icmp_echo_id, icmp_echo_sequence,
}
use protocoale_de_comunicati.Router.RouteTable.{RouteEntry}
use protocoale_de_comunicati.Router.ArpTable.{ArpEntry, ArpTable, new_arp_table, learn}
use protocoale_de_comunicati.Router.Forward.{Host, Router, Sent, address_frame, forward_packet}

abbrev nothing : Router → Packet → Sent
nothing r m = record { router = r; packet = m; frames = [] }

-- The answer to an echo request, with the addresses of the request changed round.
unfoldable pub echo_reply : Packet → Frame
echo_reply m =
    send_icmp (ip_saddr m.payload) (ip_daddr m.payload) (ether_dhost m.payload)
      (ether_shost m.payload) 0 0 m.interface (icmp_echo_id m.payload)
      (icmp_echo_sequence m.payload)

-- An IP packet; the option is what `parse_icmp` returned.
unfoldable pub handle_ip : Host → Router → Packet → Option ℕ → Outcome Sent
unfolding echo_reply
handle_ip h r m none = forward_packet h r m
handle_ip h r m (some icmp_hdr) =
    if ip_daddr m.payload == h.interface_ip m.interface
    then if icmp_type m.payload == 8
      then ok (record { router = r; packet = m; frames = echo_reply m ∷ [] })
      else ok (nothing r m)
    else forward_packet h r m

-- The answer to an ARP request: the two `memcpy` into the Ethernet header of the packet, and the
-- header that they leave.
unfoldable pub answered : Host → Packet → Memory
answered h m = address_frame m.payload (ether_shost m.payload) (h.interface_mac m.interface)

unfoldable pub arp_answer : Host → Packet → Frame
unfolding answered address_frame
arp_answer h m =
    let payload = answered h m in
    send_arp (arp_spa payload) (arp_tpa payload)
      (record {
        dhost = ether_dhost payload;
        shost = ether_shost payload;
        ether_type = ether_type_of payload;
      })
      m.interface (htons 2)

unfoldable pub handle_request : Host → Router → Packet → Sent
unfolding arp_answer
handle_request h r m =
    if arp_tpa m.payload == h.interface_ip m.interface
    then record {
      router = r;
      packet = record m { payload = answered h m };
      frames = arp_answer h m ∷ [];
    }
    else nothing r m

-- An ARP reply, and every other operation: the entry is stored, and the packet that has waited
-- longest is forwarded, through a pointer to a local variable that is dead.
unfoldable pub release : Host → Router → Packet → List Packet → Outcome Sent
release h r m [] = ok (nothing r m)
release h r m (p ∷ ps) = elim (h.stale_copy p) [
  | none ↦ fault
  | some copy ↦
      forward_packet h (record r { packets = ps }) copy >>= λ s. ok (record s { packet = m })
]

unfoldable pub handle_reply : Host → Router → Packet → Outcome Sent
unfolding release
handle_reply h r m = do
  t ← learn r.arp_table (record { ip = arp_spa m.payload; mac = arp_sha m.payload })
  release h (record r { arp_table = t }) m r.packets

unfoldable pub handle_arp : Host → Router → Packet → Outcome Sent
unfolding handle_request handle_reply
handle_arp h r m =
    if ntohs (arp_op_of m.payload) == 1 then ok (handle_request h r m) else handle_reply h r m

-- The body of the loop in `main`, behind `get_packet`.
unfoldable pub handle : Host → Router → Packet → Outcome Sent
unfolding handle_ip handle_arp
handle h r m =
    if ntohs (ether_type_of m.payload) == eth_p_ip
    then handle_ip h r m (parse_icmp m.payload)
    else elim (parse_arp m.payload) [ none ↦ ok (nothing r m) | some arp_hdr ↦ handle_arp h r m ]

-- One return of `select`: whether it is -1, the interfaces that can be read, what `read` returns,
-- `none` for -1, for which frames `write` returns -1, and what stands where the local variables of
-- `forward_packet` were.
pub record Round : Type 0 where
  pub select_fails : Bool
  pub write_fails : Frame → Bool
  pub stale_copy : Packet → Option Packet
  pub ready : ℕ → Bool
  pub received : ℕ → Option (List ℕ)

-- `for (int i = 0; i < ROUTER_NUM_INTERFACES; i++)`: the first interface that is ready.
unfoldable pub first_ready : (left i : ℕ) → (ℕ → Bool) → Option ℕ
first_ready zero i ready = none
first_ready (suc left) i ready =
    let rest = first_ready left (i + 1) ready in if ready i then some i else rest

abbrev pub router_num_interfaces : ℕ
router_num_interfaces = 3

-- `socket_receive_message`: the bytes go over the start of the buffer, which keeps the rest of the
-- packet before.
unfoldable pub receive_message : Packet → (interface : ℕ) → Option (List ℕ) → Outcome Packet
receive_message m interface none = exited
receive_message m interface (some bytes) =
    ok (record {
      len = length bytes;
      payload = write_bytes m.payload 0 bytes;
      interface = interface;
    })

-- The variables of `main`, and all that was sent so far.
pub record Loop : Type 0 where
  pub router : Router
  pub m : Packet
  pub sent : List Frame

-- What `main` holds before the loop, with the table that `sort_rtable` left.
unfoldable pub start : List RouteEntry → Packet → Loop
unfolding new_arp_table
start rtable m = record {
  router = record { rtable = rtable; arp_table = new_arp_table; packets = [] };
  m = m;
  sent = [];
}

-- The `DIE` behind `write` in `send_packet`. `handle` sends one frame at most, and nothing that it
-- does depends on what `write` returns.
unfoldable pub written : (write_fails : Frame → Bool) → (frames : List Frame) → Loop → Outcome Loop
written write_fails [] l = ok l
written write_fails (f ∷ fs) l =
    let rest = written write_fails fs (record l { sent = l.sent ++ f ∷ [] }) in
    if write_fails f then exited else rest

unfoldable pub serve : Host → Loop → (interface : ℕ) → Round → Outcome Loop
unfolding receive_message handle written
serve h l interface round = do
  m ← receive_message l.m interface (round.received interface)
  s ← handle (record h { stale_copy = round.stale_copy }) l.router m
  written round.write_fails s.frames (record { router = s.router; m = s.packet; sent = l.sent })

-- One round of `select`; without a ready interface `get_packet` waits for the next.
unfoldable pub step : Host → Loop → Round → Outcome Loop
unfolding first_ready serve
step h l round =
    let next : Outcome Loop = elim (first_ready router_num_interfaces 0 round.ready) [
      | none ↦ ok l
      | some i ↦ serve h l i round
    ] in
    if round.select_fails then exited else next

unfoldable pub run : Host → Loop → List Round → Outcome Loop
run h l [] = ok l
run h l (round ∷ rounds) = step h l round >>= λ l'. run h l' rounds
