-- ===== src/Ping/Echoed.antt =====
-- ping of laboratoare/lab-05 against the router of tema1, whose address it asks for.
use protocoale_de_comunicati.Common.{
  ℕ, zero, suc, ◌+◌, ◌^◌, ◌<◌, ◌≡◌, refl, ap, arith, true, some, List, [], ◌∷◌, ◌++◌, ◌==◌, length,
  htons, ntohs, u16, Memory, write_bytes, Outcome, ok, exited, fault,
}
use protocoale_de_comunicati.Common.Maps.{str_eq, str_eq_iff}
use protocoale_de_comunicati.Router.Frames.{
  Packet, Frame, mac_bytes, parse_icmp, send_icmp, ip_daddr, icmp_echo_sequence,
}
use protocoale_de_comunicati.Router.Forward.{Host, Router, Sent}
use protocoale_de_comunicati.Router.MainLoop.{echo_reply, handle, handle_ip}
use protocoale_de_comunicati.Ping.{
  Station, init_eth_hdr, ip_hdr, icmp_hdr, request, relevant_packet, PingLine, ping_line, ping_from,
  ping,
}
use protocoale_de_comunicati.Ping.Replies.{landed, after, AreDiscarded, time_packet_skips}

-- A request in the buffer of the router.
abbrev pub asked : Station → Memory → (interface daddr sequence : ℕ) → Packet
asked s stale interface daddr sequence = record {
  len = 42;
  payload = write_bytes stale 0 (request s daddr 64 0 sequence);
  interface = interface;
}

-- The frames that the body of the router's loop sends.
abbrev bytes_of : List Frame → List (List ℕ)
bytes_of [] = []
bytes_of (f ∷ fs) = f.bytes ∷ bytes_of fs

abbrev pub answers : Outcome Sent → List (List ℕ)
answers (ok sent) = bytes_of sent.frames
answers exited = []
answers fault = []

handle-request :
    (s : Station) (h : Host) (r : Router) (stale : Memory) (interface daddr sequence : ℕ)
    → daddr < 2 ^ 32
    → daddr ≡ h.interface_ip interface
    → let m = asked s stale interface daddr sequence in
      handle h r m ≡ ok (record { router = r; packet = m; frames = echo_reply m ∷ [] })
unfolding handle handle_ip parse_icmp request init_eth_hdr ip_hdr icmp_hdr
handle-request s h r stale interface daddr sequence room e =
    let m : Packet = asked s stale interface daddr sequence in
    let target : ip_daddr m.payload ≡ daddr = omega arith in
    let own : (ip_daddr m.payload == h.interface_ip interface) ≡ true = ground (arith, target, e) in
    rw own refl

-- What ping reads in the answer.
relevant_packet-echo_reply :
    (s : Station) (stack stale : Memory) (interface daddr sequence : ℕ)
    → relevant_packet s (landed stack (echo_reply (asked s stale interface daddr sequence)).bytes)
      ≡ true
unfolding echo_reply send_icmp relevant_packet request init_eth_hdr ip_hdr icmp_hdr
relevant_packet-echo_reply s stack stale interface daddr sequence =
    let own : str_eq (mac_bytes s.mac) (mac_bytes s.mac) ≡ true =
      (str_eq_iff (mac_bytes s.mac) (mac_bytes s.mac)).1 refl in
    rw own refl

ping_line-echo_reply :
    (s : Station) (stack stale : Memory) (interface daddr i : ℕ)
    → i + 1 < 2 ^ 16
    → ping_line
        (landed stack (echo_reply (asked s stale interface daddr (htons (u16 (i + 1))))).bytes)
      ≡ record { tot_len = 28; sequence = i + 1; ttl = 64 }
unfolding echo_reply send_icmp ping_line request init_eth_hdr ip_hdr icmp_hdr
ping_line-echo_reply s stack stale interface daddr i room =
    let reply : Memory =
      landed stack (echo_reply (asked s stale interface daddr (htons (u16 (i + 1))))).bytes in
    let e : ntohs (icmp_echo_sequence reply) ≡ i + 1 = omega arith in
    ap (λ sequence. record { tot_len = 28; sequence = sequence; ttl = 64 }) e

-- What ping receives when the router answers each request, with other frames before each answer.
abbrev pub echoes :
    Station
    → Host
    → Router
    → (stale : ℕ → Memory) (interface daddr : ℕ) → (noises : List (List (List ℕ))) → (i : ℕ)
    → List (List ℕ)
    → List (List ℕ)
echoes s h r stale interface daddr [] i rest = rest
echoes s h r stale interface daddr (noise ∷ noises) i rest =
    noise
    ++ (answers (handle h r (asked s (stale i) interface daddr (htons (u16 (i + 1)))))
        ++ echoes s h r stale interface daddr noises (i + 1) rest)

abbrev pub AllDiscarded : Station → List (List (List ℕ)) → Type 0
AllDiscarded s [] = Unit
AllDiscarded s (noise ∷ noises) = AreDiscarded s noise × AllDiscarded s noises

abbrev pub pings : Station → (daddr count i : ℕ) → List (List ℕ)
pings s daddr zero i = []
pings s daddr (suc count) i =
    request s daddr 64 0 (htons (u16 (i + 1))) ∷ pings s daddr count (i + 1)

abbrev pub lines_of : (count i : ℕ) → List PingLine
lines_of zero i = []
lines_of (suc count) i =
    record { tot_len = 28; sequence = i + 1; ttl = 64 } ∷ lines_of count (i + 1)

ping_from-echoes :
    (s : Station) (h : Host) (r : Router) (stale : ℕ → Memory) (interface daddr : ℕ)
    (noises : List (List (List ℕ))) (i : ℕ) (rest : List (List ℕ))
    → daddr < 2 ^ 32
    → daddr ≡ h.interface_ip interface
    → i + length noises < 2 ^ 16
    → AllDiscarded s noises
    → ping_from s daddr (length noises) i (echoes s h r stale interface daddr noises i rest)
      ≡ ok (record {
        sent = pings s daddr (length noises) i;
        lines = lines_of (length noises) i;
        received = rest;
      })
unfolding ping_from
ping_from-echoes s h r stale interface daddr [] i rest small own room d = refl
ping_from-echoes s h r stale interface daddr (noise ∷ noises) i rest small own room (d, ds) =
    let sequence : ℕ = htons (u16 (i + 1)) in
    let stack : Memory = after (s.stack i) noise in
    rw
      (
        handle-request s h r (stale i) interface daddr sequence small own,
        time_packet_skips s (s.stack i) noise
            (echo_reply (asked s (stale i) interface daddr sequence)).bytes
            (echoes s h r stale interface daddr noises (i + 1) rest) d
            (relevant_packet-echo_reply s stack (stale i) interface daddr sequence),
        ping_line-echo_reply s stack (stale i) interface daddr i (omega arith),
        ping_from-echoes s h r stale interface daddr noises (i + 1) rest small own (omega arith) ds,
      )
      refl

-- A ping to the address that a router of tema1 has on the interface on which the requests come in, of up to
-- 65535 rounds: the router answers every request, and ping, which passes over the frames that its raw
-- socket receives besides and that `relevant_packet` discards, prints for each round 28 bytes, the
-- number of the round and the TTL 64.
pub ping-handle :
    (s : Station) (h : Host) (r : Router) (stale : ℕ → Memory) (interface daddr : ℕ)
    (noises : List (List (List ℕ))) (rest : List (List ℕ))
    → daddr < 2 ^ 32
    → daddr ≡ h.interface_ip interface
    → length noises < 2 ^ 16
    → AllDiscarded s noises
    → ping s daddr (some (length noises)) (echoes s h r stale interface daddr noises 0 rest)
      ≡ ok (record {
        sent = pings s daddr (length noises) 0;
        lines = lines_of (length noises) 0;
        received = rest;
      })
unfolding ping
ping-handle s h r stale interface daddr noises rest small own room d =
    ping_from-echoes s h r stale interface daddr noises 0 rest small own (omega arith) d
