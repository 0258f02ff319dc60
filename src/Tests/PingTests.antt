-- ===== src/Tests/PingTests.antt =====
-- A ping of two rounds and a traceroute of two hops.
use protocoale_de_comunicati.Common.{
  ℕ, ◌≡◌, refl, arith, true, none, some, List, [], ◌∷◌, ◌++◌, length, htons, Memory, ok,
}
use protocoale_de_comunicati.Router.Frames.{Mac, mac_bytes}
use protocoale_de_comunicati.Router.ArpTable.{new_arp_table}
use protocoale_de_comunicati.Router.Forward.{Host, Router}
use protocoale_de_comunicati.Ping.{Station, relevant_packet, ping, traceroute}
use protocoale_de_comunicati.Ping.Replies.{
  Round, AreDiscarded, IsRound, AreOnTheWay, arrivals, requests, lines_of, traceroute_ends,
}
use protocoale_de_comunicati.Ping.Echoed.{echoes, pings, AllDiscarded, ping-handle}
use protocoale_de_comunicati.Ping.Echoed

abbrev mac_a : Mac
mac_a = record { byte0 = 2; byte1 = 0; byte2 = 0; byte3 = 0; byte4 = 0; byte5 = 0xa }

abbrev mac_b : Mac
mac_b = record { byte0 = 2; byte1 = 0; byte2 = 0; byte3 = 0; byte4 = 0; byte5 = 0xb }

abbrev station : Station
station = record { mac = mac_a; ip = 0x0200000a; gateway_mac = mac_b; stack = λ i j. 0 }

-- 10.0.0.1
abbrev router_ip : ℕ
router_ip = 0x0100000a

abbrev host : Host
host = record { interface_ip = λ i. router_ip; interface_mac = λ i. mac_b; stale_copy = λ m. none }

abbrev router : Router
router = record { rtable = []; arp_table = new_arp_table; packets = [] }

-- A frame for another machine, and one that is no IP packet.
abbrev foreign : List ℕ
foreign = mac_bytes mac_b

abbrev arp_frame : List ℕ
arp_frame = mac_bytes mac_a ++ (mac_bytes mac_b ++ 8 ∷ 6 ∷ [])

abbrev noise : List (List ℕ)
noise = foreign ∷ arp_frame ∷ []

noise-AreDiscarded : AreDiscarded station noise
unfolding relevant_packet protocoale_de_comunicati.Common.Maps.str_eq
noise-AreDiscarded = (λ stack. refl, (λ stack. refl, tt))

ping-handle_example :
    ping station router_ip
      (some 2)
      (echoes station host router (λ i j. 0) 0 router_ip (noise ∷ [] ∷ []) 0 [])
    ≡ ok (record { sent = pings station router_ip 2 0; lines = Echoed.lines_of 2 0; received = [] })
ping-handle_example =
    ping-handle station host router (λ i j. 0) 0 router_ip (noise ∷ [] ∷ []) [] (omega arith) refl
      (omega arith) (noise-AreDiscarded, (tt, tt))

-- An ICMP packet of a type from 10.0.0.x to the station.
abbrev icmp_frame : (x type : ℕ) → List ℕ
icmp_frame x type =
    mac_bytes mac_a
    ++ (mac_bytes mac_b
        ++ 8 ∷ 0 ∷ 0x45 ∷ 0 ∷ 0 ∷ 28 ∷ 0 ∷ 0 ∷ 0 ∷ 0 ∷ 64 ∷ 1 ∷ 0 ∷ 0 ∷ 10 ∷ 0 ∷ 0 ∷ x ∷ 10 ∷ 0 ∷ 0
          ∷ 2 ∷ type ∷ 0 ∷ [])

abbrev exceeded : Round
exceeded = record { noise = noise; reply = icmp_frame 1 11; addr = router_ip }

abbrev echoed : Round
echoed = record { noise = []; reply = icmp_frame 3 0; addr = 0x0300000a }

way-AreOnTheWay : AreOnTheWay station (exceeded ∷ [])
unfolding relevant_packet protocoale_de_comunicati.Common.Maps.str_eq
way-AreOnTheWay = (
  record {
    discarded = noise-AreDiscarded;
    taken = λ stack. refl;
    from = λ stack. refl;
    is_echo = λ stack. refl;
  },
  tt,
)

echoed-IsRound : IsRound station true echoed
unfolding relevant_packet protocoale_de_comunicati.Common.Maps.str_eq
echoed-IsRound = record {
  discarded = tt;
  taken = λ stack. refl;
  from = λ stack. refl;
  is_echo = λ stack. refl;
}

traceroute_ends_example :
    traceroute station 0x0300000a (arrivals (exceeded ∷ echoed ∷ []) (foreign ∷ []))
    ≡ ok (record {
      sent = requests station 0x0300000a 2 1;
      lines = lines_of (exceeded ∷ echoed ∷ []) 1;
      received = foreign ∷ [];
    })
traceroute_ends_example =
    traceroute_ends station 0x0300000a (exceeded ∷ []) echoed (foreign ∷ []) (omega arith)
      way-AreOnTheWay echoed-IsRound
