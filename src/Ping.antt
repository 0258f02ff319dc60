-- ===== src/Ping.antt =====
-- ping and traceroute of laboratoare/lab-05/icmp.c, with init_packet, relevant_packet and
-- time_packet of laboratoare/lab-05/utils.c. The frames are lists of bytes, in the layout of
-- Router/Frames.antt; `checksum` of utils.c is the same code as `ip_checksum`. The calls that send
-- succeed; the times and the headings that are printed are left out.
pub mod Replies
pub mod Echoed
use protocoale_de_comunicati.Common.{
  ℕ, zero, suc, ◌+◌, Option, none, some, Bool, true, false, List, [], ◌∷◌, ◌++◌, ◌==◌,
  if◌then◌else◌, take, u16, htons, ntohs, Memory, write_bytes, read_bytes, Outcome, ok, exited,
  fault, ◌>>=◌,
}
use protocoale_de_comunicati.Common.Maps.{str_eq}
use protocoale_de_comunicati.Router.Checksum.{ip_checksum}
use protocoale_de_comunicati.Router.Frames.{
  Mac, mac_bytes, EtherHeader, ether_bytes, IpHeader, ip_bytes, IcmpHeader, icmp_bytes, eth_p_ip,
  load16_at, ether_type_of, ip_ttl, ip_protocol, ip_saddr, icmp_type, icmp_echo_sequence,
}

-- What the program asks of the system: the addresses of its interface, the address by which
-- `arp_resolve` finds the gateway, and what the local variable `reply` holds at the beginning of each
-- round.
pub record Station : Type 0 where
  pub mac : Mac
  pub ip : ℕ
  pub gateway_mac : Mac
  pub stack : ℕ → Memory

abbrev pub packet_len : ℕ
packet_len = 1500

unfoldable pub init_eth_hdr : Station → EtherHeader
init_eth_hdr s = record { dhost = s.gateway_mac; shost = s.mac; ether_type = htons eth_p_ip }

-- The IP header behind 14 bytes of a payload that is aligned to four bytes. `init_packet` has left
-- the fields that are not assigned zero.
unfoldable pub ip_hdr : Station → (daddr ttl : ℕ) → IpHeader
ip_hdr s daddr ttl =
    let h : IpHeader = record {
      version = 4;
      ihl = 5;
      tos = 0;
      tot_len = htons 28;
      id = 0;
      frag_off = 0;
      ttl = ttl;
      protocol = 1;
      check = 0;
      saddr = s.ip;
      daddr = daddr;
    } in
    record h { check = ip_checksum 14 (ip_bytes h) }

unfoldable pub icmp_hdr : (id sequence : ℕ) → IcmpHeader
icmp_hdr id sequence =
    let h : IcmpHeader = record {
      type = 8;
      code = 0;
      checksum = 0;
      id = id;
      sequence = sequence;
    } in
    record h { checksum = ip_checksum 34 (icmp_bytes h) }

-- The 42 bytes of a request.
unfoldable pub request : Station → (daddr ttl id sequence : ℕ) → List ℕ
unfolding init_eth_hdr ip_hdr icmp_hdr
request s daddr ttl id sequence =
    ether_bytes (init_eth_hdr s)
    ++ (ip_bytes (ip_hdr s daddr ttl) ++ icmp_bytes (icmp_hdr id sequence))

unfoldable pub relevant_packet : Station → Memory → Bool
relevant_packet s reply =
    if str_eq (mac_bytes s.mac) (read_bytes reply 0 6)
    then if ntohs (ether_type_of reply) == eth_p_ip then ip_protocol reply == 1 else false
    else false

-- The loop of `time_packet`, on the frames that `recv` returns; the end of the list stands for -1.
unfoldable pub time_packet : Station → Memory → List (List ℕ) → Outcome (Memory × List (List ℕ))
unfolding relevant_packet
time_packet s reply [] = exited
time_packet s reply (frame ∷ received) =
    let reply' : Memory = write_bytes reply 0 (take packet_len frame) in
    let rest = time_packet s reply' received in
    if relevant_packet s reply' then ok (reply', received) else rest

-- A line of `ping`, and a line of `traceroute`.
pub record PingLine : Type 0 where
  pub tot_len : ℕ
  pub sequence : ℕ
  pub ttl : ℕ

pub record Hop : Type 0 where
  pub counter : ℕ
  pub rip_addr : ℕ

-- The requests that go out, what is printed, and what is still to be received.
pub record Traced (Line : Type 0) : Type 0 where
  pub sent : List (List ℕ)
  pub lines : List Line
  pub received : List (List ℕ)

unfoldable pub ping_line : Memory → PingLine
ping_line reply = record {
  tot_len = ntohs (load16_at reply 16);
  sequence = ntohs (icmp_echo_sequence reply);
  ttl = ip_ttl reply;
}

-- The loop of `ping`, with the number of rounds that are left.
unfoldable pub ping_from : Station → (daddr left i : ℕ) → List (List ℕ) → Outcome (Traced PingLine)
unfolding request time_packet ping_line
ping_from s daddr zero i received = ok (record { sent = []; lines = []; received = received })
ping_from s daddr (suc left) i received = do
  (reply, received') ← time_packet s (s.stack i) received
  later ← ping_from s daddr left (i + 1) received'
  ok (record later {
    sent = request s daddr 64 0 (htons (u16 (i + 1))) ∷ later.sent;
    lines = ping_line reply ∷ later.lines;
  })

-- The count is `none` for -1, and any other negative count is as 0.
unfoldable pub ping :
    Station → (daddr : ℕ) → (count : Option ℕ) → List (List ℕ) → Outcome (Traced PingLine)
unfolding ping_from
ping s daddr none received = ping_from s daddr 65535 0 received
ping s daddr (some count) received = ping_from s daddr count 0 received

-- The loop of `traceroute`; `left` is 65 less the counter.
unfoldable pub hops : Station → (daddr left counter : ℕ) → List (List ℕ) → Outcome (Traced Hop)
unfolding request time_packet
hops s daddr zero counter received = ok (record { sent = []; lines = []; received = received })
hops s daddr (suc left) counter received = do
  (reply, received') ← time_packet s (s.stack counter) received
  let rest = hops s daddr left (counter + 1) received'
  let none_left : Outcome (Traced Hop) = ok (record { sent = []; lines = []; received = received' })
  later ← if icmp_type reply == 0 then none_left else rest
  ok (record later {
    sent = request s daddr counter 42 (htons counter) ∷ later.sent;
    lines = record { counter = counter; rip_addr = ip_saddr reply } ∷ later.lines;
  })

unfoldable pub traceroute : Station → (daddr : ℕ) → List (List ℕ) → Outcome (Traced Hop)
unfolding hops
traceroute s daddr received = hops s daddr 64 1 received
