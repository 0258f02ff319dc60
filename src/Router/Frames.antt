-- ===== src/Router/Frames.antt =====
-- The packets of tema1/include/skel.h, and the functions of tema1/skel.c that build and parse
-- frames. A frame on the wire is the list of its bytes.
pub mod Parse
use protocoale_de_comunicati.Common.{
  ℕ, zero, suc, ◌+◌, ◌-◌, ◌*◌, ◌/◌, ◌%◌, Option, none, some, List, [], ◌∷◌, ◌++◌, ◌==◌,
  if◌then◌else◌, htons, ntohs, bytes16, bytes32, load16, load32, Memory, read_bytes,
}
use protocoale_de_comunicati.Router.Checksum.{ip_checksum, icmp_checksum}

-- `packet`. The payload is the whole buffer, of which the first `len` bytes were received.
pub record Packet : Type 0 where
  pub len : ℕ
  pub payload : Memory
  pub interface : ℕ

-- What `write` sends on `interfaces[interface]`.
pub record Frame : Type 0 where
  pub interface : ℕ
  pub bytes : List ℕ

-- `uint8_t mac[6]`.
pub record Mac : Type 0 where
  pub byte0 : ℕ
  pub byte1 : ℕ
  pub byte2 : ℕ
  pub byte3 : ℕ
  pub byte4 : ℕ
  pub byte5 : ℕ

abbrev pub mac_bytes : Mac → List ℕ
mac_bytes a = a.byte0 ∷ a.byte1 ∷ a.byte2 ∷ a.byte3 ∷ a.byte4 ∷ a.byte5 ∷ []

-- The address that stands in memory at an offset.
abbrev pub mac_at : Memory → ℕ → Mac
mac_at mem i = record {
  byte0 = mem i;
  byte1 = mem (i + 1);
  byte2 = mem (i + 2);
  byte3 = mem (i + 3);
  byte4 = mem (i + 4);
  byte5 = mem (i + 5);
}

-- `struct ether_header`.
pub record EtherHeader : Type 0 where
  pub dhost : Mac
  pub shost : Mac
  pub ether_type : ℕ

abbrev pub ether_bytes : EtherHeader → List ℕ
ether_bytes h = mac_bytes h.dhost ++ (mac_bytes h.shost ++ bytes16 h.ether_type)

unfoldable pub build_ethhdr : (sha dha : Mac) → (type : ℕ) → EtherHeader
build_ethhdr sha dha type = record { dhost = dha; shost = sha; ether_type = type }

-- `send_packet`: the first `len` bytes of the payload are given to `write`. That the program ends when
-- `write` returns -1 is `written` of Router/MainLoop.antt: nothing is done between a `write` and the
-- next turn of the loop.
unfoldable pub send_packet : (interface : ℕ) → Packet → Frame
send_packet interface m = record { interface = interface; bytes = read_bytes m.payload 0 m.len }

abbrev pub eth_p_ip : ℕ
eth_p_ip = 0x0800

abbrev pub eth_p_arp : ℕ
eth_p_arp = 0x0806

-- `struct iphdr` without options; `version` and `ihl` share the first byte.
pub record IpHeader : Type 0 where
  pub version : ℕ
  pub ihl : ℕ
  pub tos : ℕ
  pub tot_len : ℕ
  pub id : ℕ
  pub frag_off : ℕ
  pub ttl : ℕ
  pub protocol : ℕ
  pub check : ℕ
  pub saddr : ℕ
  pub daddr : ℕ

-- The bytes before and behind the checksum, and all of them.
abbrev pub ip_front : IpHeader → List ℕ
ip_front h =
    (h.version * 16 + h.ihl) ∷ h.tos ∷ []
    ++ (bytes16 h.tot_len ++ (bytes16 h.id ++ (bytes16 h.frag_off ++ (h.ttl ∷ h.protocol ∷ []))))

abbrev pub ip_back : IpHeader → List ℕ
ip_back h = bytes32 h.saddr ++ bytes32 h.daddr

abbrev pub ip_bytes : IpHeader → List ℕ
ip_bytes h = ip_front h ++ (bytes16 h.check ++ ip_back h)

-- `struct icmphdr` with `un.echo`.
pub record IcmpHeader : Type 0 where
  pub type : ℕ
  pub code : ℕ
  pub checksum : ℕ
  pub id : ℕ
  pub sequence : ℕ

abbrev pub icmp_bytes : IcmpHeader → List ℕ
icmp_bytes h = h.type ∷ h.code ∷ [] ++ (bytes16 h.checksum ++ (bytes16 h.id ++ bytes16 h.sequence))

-- The IP header that `send_icmp` and `send_icmp_error` fill in, before the checksum. The sizes are
-- 20 for `struct iphdr` and 8 for `struct icmphdr`.
unfoldable pub icmp_ip_header : (daddr saddr : ℕ) → IpHeader
icmp_ip_header daddr saddr = record {
  version = 4;
  ihl = 5;
  tos = 0;
  tot_len = htons 28;
  id = htons 1;
  frag_off = 0;
  ttl = 64;
  protocol = 1;
  check = 0;
  saddr = saddr;
  daddr = daddr;
}

-- `ip_hdr.check = ip_checksum(...)` on a local, whose address is a multiple of four, and
-- `icmp_hdr.checksum = icmp_checksum(...)`, whose eight bytes leave no odd byte.
unfoldable pub with_ip_checksum : IpHeader → IpHeader
with_ip_checksum h = record h { check = ip_checksum 0 (ip_bytes h) }

unfoldable pub with_icmp_checksum : IcmpHeader → IcmpHeader
with_icmp_checksum h = record h { checksum = icmp_checksum 0 (icmp_bytes h) }

unfoldable pub send_icmp :
    (daddr saddr : ℕ) (sha dha : Mac) (type code interface id seq : ℕ) → Frame
unfolding build_ethhdr icmp_ip_header with_ip_checksum with_icmp_checksum
send_icmp daddr saddr sha dha type code interface id seq = record {
  interface = interface;
  bytes =
      ether_bytes (build_ethhdr sha dha (htons eth_p_ip))
      ++ (ip_bytes (with_ip_checksum (icmp_ip_header daddr saddr))
          ++ icmp_bytes (
              with_icmp_checksum (record {
                type = type;
                code = code;
                checksum = 0;
                id = id % 65536;
                sequence = seq % 65536;
              })));
}

-- The initialiser leaves `un` zero.
unfoldable pub send_icmp_error : (daddr saddr : ℕ) (sha dha : Mac) (type code interface : ℕ) → Frame
unfolding build_ethhdr icmp_ip_header with_ip_checksum with_icmp_checksum
send_icmp_error daddr saddr sha dha type code interface = record {
  interface = interface;
  bytes =
      ether_bytes (build_ethhdr sha dha (htons eth_p_ip))
      ++ (ip_bytes (with_ip_checksum (icmp_ip_header daddr saddr))
          ++ icmp_bytes (
              with_icmp_checksum
                (record { type = type; code = code; checksum = 0; id = 0; sequence = 0 })));
}

-- `struct arp_header`.
pub record ArpHeader : Type 0 where
  pub htype : ℕ
  pub ptype : ℕ
  pub hlen : ℕ
  pub plen : ℕ
  pub op : ℕ
  pub sha : Mac
  pub spa : ℕ
  pub tha : Mac
  pub tpa : ℕ

abbrev pub arp_bytes : ArpHeader → List ℕ
arp_bytes h =
    bytes16 h.htype
    ++ (bytes16 h.ptype
        ++ (h.hlen ∷ h.plen ∷ []
            ++ (bytes16 h.op
                ++ (mac_bytes h.sha ++ (bytes32 h.spa ++ (mac_bytes h.tha ++ bytes32 h.tpa))))))

unfoldable pub send_arp : (daddr saddr : ℕ) (eth_hdr : EtherHeader) (interface arp_op : ℕ) → Frame
send_arp daddr saddr eth_hdr interface arp_op = record {
  interface = interface;
  bytes =
      ether_bytes eth_hdr
      ++ arp_bytes (record {
        htype = htons 1;
        ptype = htons 2048;
        hlen = 6;
        plen = 4;
        op = arp_op;
        sha = eth_hdr.shost;
        spa = saddr;
        tha = eth_hdr.dhost;
        tpa = daddr;
      });
}

-- Where the fields stand in a payload: the Ethernet header at 0, the IP and ARP headers at 14, the
-- ICMP header at 34.
abbrev pub load16_at : Memory → ℕ → ℕ
load16_at mem i = load16 (mem i) (mem (i + 1))

abbrev pub load32_at : Memory → ℕ → ℕ
load32_at mem i = load32 (mem i) (mem (i + 1)) (mem (i + 2)) (mem (i + 3))

abbrev pub ether_dhost : Memory → Mac
ether_dhost buffer = mac_at buffer 0

abbrev pub ether_shost : Memory → Mac
ether_shost buffer = mac_at buffer 6

abbrev pub ether_type_of : Memory → ℕ
ether_type_of buffer = load16_at buffer 12

abbrev pub ip_ttl : Memory → ℕ
ip_ttl buffer = buffer 22

abbrev pub ip_protocol : Memory → ℕ
ip_protocol buffer = buffer 23

abbrev pub ip_saddr : Memory → ℕ
ip_saddr buffer = load32_at buffer 26

abbrev pub ip_daddr : Memory → ℕ
ip_daddr buffer = load32_at buffer 30

abbrev pub arp_op_of : Memory → ℕ
arp_op_of buffer = load16_at buffer 20

abbrev pub arp_sha : Memory → Mac
arp_sha buffer = mac_at buffer 22

abbrev pub arp_spa : Memory → ℕ
arp_spa buffer = load32_at buffer 28

abbrev pub arp_tpa : Memory → ℕ
arp_tpa buffer = load32_at buffer 38

abbrev pub icmp_type : Memory → ℕ
icmp_type buffer = buffer 34

abbrev pub icmp_echo_id : Memory → ℕ
icmp_echo_id buffer = load16_at buffer 38

abbrev pub icmp_echo_sequence : Memory → ℕ
icmp_echo_sequence buffer = load16_at buffer 40

-- `parse_arp` and `parse_icmp` return a pointer into the buffer, here the offset, or `NULL`.
unfoldable pub parse_arp : Memory → Option ℕ
parse_arp buffer = if ntohs (ether_type_of buffer) == eth_p_arp then some 14 else none

unfoldable pub parse_icmp : Memory → Option ℕ
parse_icmp buffer =
    if ntohs (ether_type_of buffer) == eth_p_ip
    then if ip_protocol buffer == 1 then some 34 else none
    else none
