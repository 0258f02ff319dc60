-- ===== src/Tests/LoopTests.antt =====
-- tema1: the router on the packets of a small network.
use protocoale_de_comunicati.Common.{
  ℕ, ◌+◌, ◌≡◌, refl, none, some, false, ◌>>=◌, List, [], ◌∷◌, ◌++◌, arith, Memory, write_bytes,
  Returns, ◌==◌,
}
use protocoale_de_comunicati.Router.Checksum.{ip_checksum}
use protocoale_de_comunicati.Router.Checksum.Rfc.{AreBytes}
use protocoale_de_comunicati.Router.Frames.{Mac, Packet, send_packet, ip_ttl, parse_arp}
use protocoale_de_comunicati.Router.RouteTable.{RouteEntry, best_route}
use protocoale_de_comunicati.Router.ArpTable.{ArpEntry, ArpTable, learn, get_arp_entry}
use protocoale_de_comunicati.Router.Forward.{Host, Router, forward_packet}
use protocoale_de_comunicati.Router.Forward.Header.{IsPayload, write_bytes-IsPayload}
use protocoale_de_comunicati.Router.Forward.Known.{
  IsForwardable, IsForwarded, IsModest, forward_packet-known, forward_packet-IsModest,
}
use protocoale_de_comunicati.Router.MainLoop.{Round, handle, handle_reply}
use protocoale_de_comunicati.Router.MainLoop.Replies.{
  IsAnswer, IsEcho, handle-AsksForUs, handle-PingsUs,
}
use protocoale_de_comunicati.Router.MainLoop.Kept.{IsKept, learns, releases, handle-IsKept}
use protocoale_de_comunicati.Router.MainLoop.Waiting.{IsReleased, handle_reply_ages_twice}

abbrev pub mac_0 : Mac
mac_0 = record { byte0 = 2; byte1 = 0; byte2 = 0; byte3 = 0; byte4 = 0; byte5 = 0x10 }

abbrev pub mac_a : Mac
mac_a = record { byte0 = 2; byte1 = 0; byte2 = 0; byte3 = 0; byte4 = 0; byte5 = 0x0a }

-- 10.0.0.1 on every interface, and a stack that nothing overwrites.
abbrev pub host : Host
host = record {
  interface_ip = λ _. 0x0100000a;
  interface_mac = λ _. mac_0;
  stale_copy = λ p. some p;
}

abbrev pub net : RouteEntry
net = record { prefix = 0x000401c0; next_hop = 0x020401c0; mask = 0x00ffffff; interface = 1 }

abbrev pub hop : ArpEntry
hop = record { ip = 0x020401c0; mac = mac_a }

abbrev knows : Router
knows = record {
  rtable = net ∷ [];
  arp_table = record { entries = hop ∷ []; bytes = 1200; max_size = 100 };
  packets = [];
}

abbrev pub blank : Memory
blank = λ _. 0

-- A ping from 10.0.0.7, with the given end of the IP address that it goes to, time to live and
-- header checksum.
abbrev pub ping_bytes : (to : List ℕ) → (ttl check_high check_low : ℕ) → List ℕ
ping_bytes to ttl check_high check_low =
    2 ∷ 0 ∷ 0 ∷ 0 ∷ 0 ∷ 0x10 ∷ 2 ∷ 0 ∷ 0 ∷ 0 ∷ 0 ∷ 0x0a ∷ 8 ∷ 0 ∷ 0x45 ∷ 0 ∷ 0 ∷ 28 ∷ 0 ∷ 1 ∷ 0 ∷ 0
      ∷ ttl ∷ 1 ∷ check_high ∷ check_low ∷ 10 ∷ 0 ∷ 0 ∷ 7 ∷ []
    ++ (to ++ (8 ∷ 0 ∷ 0xf7 ∷ 0xf8 ∷ 0 ∷ 1 ∷ 0 ∷ 6 ∷ []))

abbrev pub packet_of : List ℕ → Packet
packet_of bytes = record { len = 42; payload = write_bytes blank 0 bytes; interface = 0 }

-- To 192.1.4.51, behind the next hop, with a long and with the shortest life, and to the router.
abbrev pub far : Packet
far = packet_of (ping_bytes (192 ∷ 1 ∷ 4 ∷ 51 ∷ []) 64 0xac 0xa5)

abbrev dying : Packet
dying = packet_of (ping_bytes (192 ∷ 1 ∷ 4 ∷ 51 ∷ []) 2 0xea 0xa5)

abbrev to_us : Packet
to_us = packet_of (ping_bytes (10 ∷ 0 ∷ 0 ∷ 1 ∷ []) 64 0x66 0xd9)

-- Who has 10.0.0.1, and 192.1.4.2 is at the next hop's hardware address.
abbrev arp_bytes : (op : ℕ) → (sender target : List ℕ) → List ℕ
arp_bytes op sender target =
    2 ∷ 0 ∷ 0 ∷ 0 ∷ 0 ∷ 0x10 ∷ 2 ∷ 0 ∷ 0 ∷ 0 ∷ 0 ∷ 0x0a ∷ 8 ∷ 6 ∷ 0 ∷ 1 ∷ 8 ∷ 0 ∷ 6 ∷ 4 ∷ 0 ∷ op ∷ 2
      ∷ 0 ∷ 0 ∷ 0 ∷ 0 ∷ 0x0a ∷ []
    ++ (sender ++ (0 ∷ 0 ∷ 0 ∷ 0 ∷ 0 ∷ 0 ∷ [] ++ target))

abbrev question : Packet
question = packet_of (arp_bytes 1 (10 ∷ 0 ∷ 0 ∷ 7 ∷ []) (10 ∷ 0 ∷ 0 ∷ 1 ∷ []))

abbrev news : Packet
news = packet_of (arp_bytes 2 (192 ∷ 1 ∷ 4 ∷ 2 ∷ []) (10 ∷ 0 ∷ 0 ∷ 1 ∷ []))

packet_of-IsPayload : (bytes : List ℕ) → AreBytes bytes → IsPayload (packet_of bytes).payload
packet_of-IsPayload bytes all = write_bytes-IsPayload blank 0 bytes (λ i. omega arith) all

pub far-IsPayload : IsPayload far.payload
far-IsPayload = packet_of-IsPayload (ping_bytes (192 ∷ 1 ∷ 4 ∷ 51 ∷ []) 64 0xac 0xa5) (omega arith)

dying-IsPayload : IsPayload dying.payload
dying-IsPayload = packet_of-IsPayload (ping_bytes (192 ∷ 1 ∷ 4 ∷ 51 ∷ []) 2 0xea 0xa5) (omega arith)

to_us-IsPayload : IsPayload to_us.payload
to_us-IsPayload = packet_of-IsPayload (ping_bytes (10 ∷ 0 ∷ 0 ∷ 1 ∷ []) 64 0x66 0xd9) (omega arith)

question-IsPayload : IsPayload question.payload
question-IsPayload =
    packet_of-IsPayload (arp_bytes 1 (10 ∷ 0 ∷ 0 ∷ 7 ∷ []) (10 ∷ 0 ∷ 0 ∷ 1 ∷ [])) (omega arith)

far-IsForwardable : IsForwardable knows far net
unfolding ip_checksum best_route
far-IsForwardable = record { intact = refl; alive = omega arith; routed = refl }

dying-IsForwardable : IsForwardable knows dying net
unfolding ip_checksum best_route
dying-IsForwardable = record { intact = refl; alive = omega arith; routed = refl }

forward_packet-known_example :
    Returns (IsForwarded host knows far net hop 18) (forward_packet host knows far)
unfolding get_arp_entry
forward_packet-known_example =
    forward_packet-known host knows far net hop 18 far-IsPayload far-IsForwardable refl

forward_packet-IsModest_example : Returns (IsModest knows) (forward_packet host knows far)
forward_packet-IsModest_example = forward_packet-IsModest host knows far (omega arith)

handle-IsKept_example : Returns (IsKept knows (learns news.payload)) (handle host knows news)
unfolding learns releases parse_arp
handle-IsKept_example = handle-IsKept host knows news (omega arith) (omega arith) refl

handle-AsksForUs_example : Returns (IsAnswer host knows question blank) (handle host knows question)
handle-AsksForUs_example =
    handle-AsksForUs host knows question blank question-IsPayload
      (record { ether_type = refl; op = refl; target = refl })

handle-PingsUs_example : Returns (IsEcho knows to_us blank 18) (handle host knows to_us)
handle-PingsUs_example =
    handle-PingsUs host knows to_us blank 18 to_us-IsPayload
      (record { ether_type = refl; protocol = refl; target = refl; type = refl })

-- No address known, and no packet that waits.
abbrev empty : Router
empty = record {
  rtable = net ∷ [];
  arp_table = record { entries = []; bytes = 1200; max_size = 100 };
  packets = [];
}

-- The news in the table.
abbrev told : ArpTable
told = record {
  entries = record { ip = 0x020401c0; mac = mac_a } ∷ [];
  bytes = 1200;
  max_size = 100;
}

far-IsReleased : IsReleased host empty far news net told
unfolding ip_checksum best_route learn get_arp_entry
far-IsReleased = record {
  bytes = far-IsPayload;
  forwardable = record { intact = refl; alive = omega arith; routed = refl };
  unknown = refl;
  idle = refl;
  learnt = refl;
  copy = λ p. refl;
}

dying-IsReleased : IsReleased host empty dying news net told
unfolding ip_checksum best_route learn get_arp_entry
dying-IsReleased = record {
  bytes = dying-IsPayload;
  forwardable = record { intact = refl; alive = omega arith; routed = refl };
  unknown = refl;
  idle = refl;
  learnt = refl;
  copy = λ p. refl;
}

handle_reply_ages_twice_example :
    Returns
      (λ s.
        (s.router.packets ≡ [])
        × ((w : Packet) × (s.frames ≡ send_packet 1 w ∷ []) × (ip_ttl w.payload + 2 ≡ 64)))
      (forward_packet host empty far >>= λ s. handle_reply host s.router news)
unfolding get_arp_entry
handle_reply_ages_twice_example =
    handle_reply_ages_twice host empty far news net told far-IsReleased hop (omega arith) refl

-- The news and then the ping for `far`, on interface 0; every call works, and no dead variable can
-- be read.
abbrev round_of : List ℕ → Round
round_of bytes = record {
  select_fails = false;
  write_fails = λ _. false;
  stale_copy = λ _. none;
  ready = λ i. i == 0;
  received = λ _. some bytes;
}

abbrev rounds : List Round
rounds =
    round_of (arp_bytes 2 (192 ∷ 1 ∷ 4 ∷ 2 ∷ []) (10 ∷ 0 ∷ 0 ∷ 1 ∷ []))
    ∷ round_of (ping_bytes (192 ∷ 1 ∷ 4 ∷ 51 ∷ []) 64 0xac 0xa5)
    ∷ []

abbrev idle : Packet
idle = record { len = 0; payload = blank; interface = 0 }
