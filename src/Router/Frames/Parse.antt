-- ===== src/Router/Frames/Parse.antt =====
-- What the frames of tema1/skel.c say to a router of the same program that receives them.
use protocoale_de_comunicati.Common.{
  ℕ, ◌%◌, ◌^◌, ◌<◌, ◌≡◌, refl, none, some, [], ◌∷◌, ◌++◌, arith, htons, bytes16, Memory,
  write_bytes, read_bytes,
}
use protocoale_de_comunicati.Router.Checksum.{ip_checksum}
use protocoale_de_comunicati.Router.Checksum.Verify.{ip_checksum-store}
use protocoale_de_comunicati.Router.Checksum.Icmp.{icmp_checksum-store}
use protocoale_de_comunicati.Router.Frames.{
  IpHeader, IcmpHeader, ip_front, ip_back, ip_bytes, icmp_bytes, with_ip_checksum,
  with_icmp_checksum, send_icmp, Mac, Frame, EtherHeader, eth_p_arp, send_arp, parse_arp,
  parse_icmp, arp_op_of, arp_spa, arp_tpa, arp_sha, ether_dhost, ip_daddr, ip_saddr, icmp_type,
  icmp_echo_id, icmp_echo_sequence, icmp_ip_header,
}

-- The fields of the header fit their widths.
pub record IsIpHeader (h : IpHeader) : Type 0 where
  pub version : h.version < 16
  pub ihl : h.ihl < 16
  pub tos : h.tos < 256
  pub ttl : h.ttl < 256
  pub protocol : h.protocol < 256

-- A header with the checksum that the code stores is accepted, wherever it lies.
pub with_ip_checksum-accepted :
    (address : ℕ) (h : IpHeader)
    → IsIpHeader h
    → h.check ≡ 0
    → ip_checksum address (ip_bytes (with_ip_checksum h)) ≡ 0
unfolding with_ip_checksum
with_ip_checksum-accepted address h v zeroed =
    rw zeroed (
      ip_checksum-store 0 address (ip_front h) (ip_back h) (omega arith) (omega arith)
        (omega arith))

pub with_icmp_checksum-accepted :
    (address : ℕ) (h : IcmpHeader)
    → h.type < 256
    → h.code < 256
    → h.checksum ≡ 0
    → ip_checksum address (icmp_bytes (with_icmp_checksum h)) ≡ 0
unfolding with_icmp_checksum
with_icmp_checksum-accepted address h t c zeroed = rw zeroed (
    icmp_checksum-store 0 address (h.type ∷ h.code ∷ []) (bytes16 h.id ++ bytes16 h.sequence)
      (omega arith) (omega arith) (omega arith) (omega arith))

-- A frame in the buffer of the router that receives it; `stale` is what was there before.
abbrev pub receive : Memory → Frame → Memory
receive stale f = write_bytes stale 0 f.bytes

-- What `send_arp` sends, `parse_arp` takes for ARP, with the operation, the sender's addresses and
-- the target's address that it was given.
pub parse_arp-send_arp :
    (stale : Memory) (daddr saddr : ℕ) (eth : EtherHeader) (interface op : ℕ)
    → daddr < 2 ^ 32
    → saddr < 2 ^ 32
    → op < 2 ^ 16
    → eth.ether_type ≡ htons eth_p_arp
    → let buffer = receive stale (send_arp daddr saddr eth interface op) in
      (parse_arp buffer ≡ some 14)
      × (parse_icmp buffer ≡ none)
      × (arp_op_of buffer ≡ op)
      × (arp_spa buffer ≡ saddr)
      × (arp_tpa buffer ≡ daddr)
      × (arp_sha buffer ≡ eth.shost)
      × (ether_dhost buffer ≡ eth.dhost)
unfolding send_arp parse_arp parse_icmp
parse_arp-send_arp stale daddr saddr eth interface op hd hs ho ht =
    (rw ht, rw ht, omega arith, omega arith, omega arith, refl, refl)

-- What `send_icmp` sends, `parse_icmp` takes for ICMP, with the addresses, type, identifier and
-- sequence number that it was given, and both of its checksums are accepted, wherever the receiver
-- has the headers in memory.
pub parse_icmp-send_icmp :
    (stale : Memory) (daddr saddr : ℕ) (sha dha : Mac) (type code interface id seq address : ℕ)
    → daddr < 2 ^ 32
    → saddr < 2 ^ 32
    → type < 256
    → code < 256
    → id < 2 ^ 16
    → seq < 2 ^ 16
    → let buffer = receive stale (send_icmp daddr saddr sha dha type code interface id seq) in
      (parse_icmp buffer ≡ some 34)
      × (parse_arp buffer ≡ none)
      × (ip_daddr buffer ≡ daddr)
      × (ip_saddr buffer ≡ saddr)
      × (icmp_type buffer ≡ type)
      × (icmp_echo_id buffer ≡ id)
      × (icmp_echo_sequence buffer ≡ seq)
      × (ip_checksum address (read_bytes buffer 14 20) ≡ 0)
      × (ip_checksum address (read_bytes buffer 34 8) ≡ 0)
unfolding send_icmp parse_arp parse_icmp
parse_icmp-send_icmp stale daddr saddr sha dha type code interface id seq address hd hs ht hc hi
      hq =
    (
      refl,
      refl,
      omega arith,
      omega arith,
      refl,
      omega arith,
      omega arith,
      with_ip_checksum-accepted address (icmp_ip_header daddr saddr) (omega arith) refl,
      with_icmp_checksum-accepted address
          (record {
            type = type;
            code = code;
            checksum = 0;
            id = id % 65536;
            sequence = seq % 65536;
          })
          ht hc refl,
    )
