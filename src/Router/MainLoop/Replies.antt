-- ===== src/Router/MainLoop/Replies.antt =====
-- What the main loop of tema1/router.c answers.
use protocoale_de_comunicati.Common.{
  ℕ, ◌≡◌, refl, true, false, some, [], ◌∷◌, arith, ◌==◌, htons, ntohs, Memory, read_bytes, Returns,
  ◌∙◌,
}
use protocoale_de_comunicati.Router.Checksum.{ip_checksum}
use protocoale_de_comunicati.Router.Frames.{
  Packet, Frame, EtherHeader, ip_protocol, send_icmp, send_arp, eth_p_ip, eth_p_arp, parse_arp,
  parse_icmp, ether_type_of, ether_dhost, ether_shost, ip_saddr, ip_daddr, arp_op_of, arp_spa,
  arp_sha, arp_tpa, icmp_type, icmp_echo_id, icmp_echo_sequence,
}
use protocoale_de_comunicati.Router.Frames.Parse.{receive, parse_arp-send_arp, parse_icmp-send_icmp}
use protocoale_de_comunicati.Router.Forward.{Host, Router, Sent}
use protocoale_de_comunicati.Router.Forward.Header.{IsPayload}
use protocoale_de_comunicati.Router.MainLoop.{
  echo_reply, arp_answer, handle_ip, handle_request, handle_arp, handle,
}

parse_arp-some :
    (buffer : Memory) → ether_type_of buffer ≡ htons eth_p_arp → parse_arp buffer ≡ some 14
unfolding parse_arp
parse_arp-some buffer e = rw e

parse_icmp-some :
    (buffer : Memory)
    → ether_type_of buffer ≡ htons eth_p_ip
    → ip_protocol buffer ≡ 1
    → parse_icmp buffer ≡ some 34
unfolding parse_icmp
parse_icmp-some buffer e p = rw (e, p)

-- An ARP request for the address of the interface that it came in on.
pub record AsksForUs (h : Host) (m : Packet) : Type 0 where
  pub ether_type : ether_type_of m.payload ≡ htons eth_p_arp
  pub op : arp_op_of m.payload ≡ htons 1
  pub target : arp_tpa m.payload ≡ h.interface_ip m.interface

-- The one frame sent is the ARP reply to the request `m`, as its sender reads it.
pub record IsAnswer (h : Host) (r : Router) (m : Packet) (stale : Memory) (s : Sent) : Type 0 where
  pub router : s.router ≡ r
  pub frame : Frame
  pub frames : s.frames ≡ frame ∷ []
  pub interface : frame.interface ≡ m.interface
  pub parsed : parse_arp (receive stale frame) ≡ some 14
  pub op : arp_op_of (receive stale frame) ≡ htons 2
  pub spa : arp_spa (receive stale frame) ≡ h.interface_ip m.interface
  pub sha : arp_sha (receive stale frame) ≡ h.interface_mac m.interface
  pub tpa : arp_tpa (receive stale frame) ≡ arp_spa m.payload
  pub dhost : ether_dhost (receive stale frame) ≡ ether_shost m.payload

-- An ARP request for the router's own address gets one frame, on the interface that it came in on.
-- Whoever asked reads in it an ARP reply to its own addresses, with the address that it asked for
-- and the hardware address of that interface. Tables and queue are as before.
pub handle-AsksForUs :
    (h : Host) (r : Router) (m : Packet) (stale : Memory)
    → IsPayload m.payload
    → AsksForUs h m
    → Returns (IsAnswer h r m stale) (handle h r m)
unfolding handle arp_answer send_arp
handle-AsksForUs h r m stale bytes v =
    let no_ip : (ntohs (ether_type_of m.payload) == eth_p_ip) ≡ false = rw v.ether_type refl in
    let arp : parse_arp m.payload ≡ some 14 = parse_arp-some m.payload v.ether_type in
    let request : (ntohs (arp_op_of m.payload) == 1) ≡ true = rw v.op refl in
    let own : (arp_tpa m.payload == h.interface_ip m.interface) ≡ true = ground (arith, v.target) in
    let eth : EtherHeader = record {
      dhost = ether_shost m.payload;
      shost = h.interface_mac m.interface;
      ether_type = ether_type_of m.payload;
    } in
    let (a, b, c, d, e, f, g) =
      parse_arp-send_arp stale (arp_spa m.payload) (arp_tpa m.payload) eth m.interface (htons 2)
        (omega (arith, bytes 28, bytes 29, bytes 30, bytes 31))
        (omega (arith, bytes 38, bytes 39, bytes 40, bytes 41)) (omega arith) v.ether_type in
    rw (no_ip, arp, handle_arp, request, handle_request, own)
      (record {
        router = refl;
        frame = arp_answer h m;
        frames = refl;
        interface = refl;
        parsed = a;
        op = c;
        spa = d ∙ v.target;
        sha = f;
        tpa = e;
        dhost = g;
      })

-- An IP packet that is an ICMP echo request to the address of the interface that it came in on.
pub record PingsUs (h : Host) (m : Packet) : Type 0 where
  pub ether_type : ether_type_of m.payload ≡ htons eth_p_ip
  pub protocol : ip_protocol m.payload ≡ 1
  pub target : ip_daddr m.payload ≡ h.interface_ip m.interface
  pub type : icmp_type m.payload ≡ 8

-- The one frame sent is the echo reply to the request `m`, as its sender reads it.
pub record IsEcho (r : Router) (m : Packet) (stale : Memory) (address : ℕ) (s : Sent) : Type 0 where
  pub router : s.router ≡ r
  pub frame : Frame
  pub frames : s.frames ≡ frame ∷ []
  pub interface : frame.interface ≡ m.interface
  pub parsed : parse_icmp (receive stale frame) ≡ some 34
  pub daddr : ip_daddr (receive stale frame) ≡ ip_saddr m.payload
  pub saddr : ip_saddr (receive stale frame) ≡ ip_daddr m.payload
  pub type : icmp_type (receive stale frame) ≡ 0
  pub id : icmp_echo_id (receive stale frame) ≡ icmp_echo_id m.payload
  pub sequence : icmp_echo_sequence (receive stale frame) ≡ icmp_echo_sequence m.payload
  pub ip_accepted : ip_checksum address (read_bytes (receive stale frame) 14 20) ≡ 0
  pub icmp_accepted : ip_checksum address (read_bytes (receive stale frame) 34 8) ≡ 0

-- An echo request to the router's own address gets one frame, on the interface that it came in on.
-- Whoever sent it reads in it an ICMP packet of type 0 from the address that it pinged to its own,
-- with the identifier and the sequence number of the request and two checksums that are accepted,
-- wherever the headers lie in its memory. Tables and queue are as before.
pub handle-PingsUs :
    (h : Host) (r : Router) (m : Packet) (stale : Memory) (address : ℕ)
    → IsPayload m.payload
    → PingsUs h m
    → Returns (IsEcho r m stale address) (handle h r m)
unfolding handle echo_reply send_icmp
handle-PingsUs h r m stale address bytes v =
    let ip : (ntohs (ether_type_of m.payload) == eth_p_ip) ≡ true = rw v.ether_type refl in
    let icmp : parse_icmp m.payload ≡ some 34 = parse_icmp-some m.payload v.ether_type v.protocol in
    let own : (ip_daddr m.payload == h.interface_ip m.interface) ≡ true =
      ground (arith, v.target) in
    let echo : (icmp_type m.payload == 8) ≡ true = rw v.type refl in
    let (a, b, c, d, e, f, g, i, j) =
      parse_icmp-send_icmp stale (ip_saddr m.payload) (ip_daddr m.payload) (ether_dhost m.payload)
        (ether_shost m.payload) 0 0 m.interface (icmp_echo_id m.payload)
        (icmp_echo_sequence m.payload) address
        (omega (arith, bytes 26, bytes 27, bytes 28, bytes 29))
        (omega (arith, bytes 30, bytes 31, bytes 32, bytes 33)) (omega arith) (omega arith)
        (omega (arith, bytes 38, bytes 39)) (omega (arith, bytes 40, bytes 41)) in
    rw (ip, icmp, handle_ip, own, echo)
      (record {
        router = refl;
        frame = echo_reply m;
        frames = refl;
        interface = refl;
        parsed = a;
        daddr = c;
        saddr = d;
        type = e;
        id = f;
        sequence = g;
        ip_accepted = i;
        icmp_accepted = j;
      })
