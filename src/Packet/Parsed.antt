-- ===== src/Packet/Parsed.antt =====
-- src/listener/packet/packet_builder.rs: from a captured frame to a `ParsedPacket`. Slicing out of
-- range panics.
pub mod Lengths
use network_listener.Prelude.{
  ℕ, ◌+◌, ◌*◌, Bool, true, false, not, ◌&&◌, ◌||◌, Option, none, some, List, leb, ◌==◌,
  if◌then◌else◌, length, drop, Run, ok, panic, ◌>>=◌, u16, u32, sub_u16, SystemTime, Duration,
  unix_epoch, from_secs,
}
use network_listener.Packet.Direction.{Direction, MacAddr, from_mac}
use network_listener.Packet.Ip.{IpAddr, v4, v6}
use network_listener.Packet.Transport.{
  TransportPacket, tcp, udp, icmp, other, Pnet, Protocol, EthernetView, Ipv4View, Ipv6View, is_syn,
  is_ack, is_fin, is_rst, from_data,
}
use network_listener.Capture.{Timeval, OwnedPacket, PcapMeta, matches_ip}

abbrev ipv6hdr : ℕ
ipv6hdr = 40

abbrev pub word_size : ℕ
word_size = 4

-- `libc::ETH_HLEN`
abbrev pub eth_hlen : ℕ
eth_hlen = 14

-- `EtherTypes`
abbrev pub ipv4_type : ℕ
ipv4_type = 0x0800

abbrev ipv6_type : ℕ
ipv6_type = 0x86dd

-- `pcap::Precision`
pub data Precision : Type 0 where
  micro nano : Precision

-- `Settings::PRECISION`
abbrev parse_precision : Precision
parse_precision = micro

-- `Duration::new`: nanoseconds past a second are carried
abbrev new_duration : ℕ → ℕ → Duration
new_duration secs nanos = from_secs secs + nanos

unfoldable pub system_time_of : Precision → Timeval → SystemTime
system_time_of micro tv = unix_epoch + new_duration tv.tv_sec (u32 (u32 tv.tv_usec * 1000))
system_time_of nano tv = unix_epoch + new_duration tv.tv_sec (u32 tv.tv_usec)

unfoldable pub timeval_to_system_time : Timeval → SystemTime
timeval_to_system_time tv = system_time_of parse_precision tv

pub record ParsedPacket : Type 0 where
  pub src_ip : IpAddr
  pub dst_ip : IpAddr
  pub src_mac : MacAddr
  pub dst_mac : MacAddr
  pub transport : TransportPacket
  pub total_length : ℕ
  pub timestamp : SystemTime
  pub direction : Direction
  pub intercepted : Bool

-- the tuple that `get_ip_info` returns
pub record IpInfo : Type 0 where
  pub src_ip : IpAddr
  pub dst_ip : IpAddr
  pub payload : List ℕ
  pub protocol : Protocol
  pub hdrlen : ℕ

-- `&payload[n..]`
abbrev pub slice_from : ℕ → List ℕ → Run (List ℕ)
slice_from n payload = if leb n (length payload) then ok (drop n payload) else panic

parse_ipv4_view : Option Ipv4View → List ℕ → Run (Option IpInfo)
parse_ipv4_view none payload = ok none
parse_ipv4_view (some ipv4) payload = do
  rest ← slice_from (ipv4.header_length * word_size) payload
  ok (
      some (record {
        src_ip = v4 ipv4.source;
        dst_ip = v4 ipv4.destination;
        payload = rest;
        protocol = ipv4.protocol;
        hdrlen = ipv4.header_length * word_size;
      }))

parse_ipv6_view : Option Ipv6View → List ℕ → Run (Option IpInfo)
parse_ipv6_view none payload = ok none
parse_ipv6_view (some ipv6) payload = do
  rest ← slice_from ipv6hdr payload
  ok (
      some (record {
        src_ip = v6 ipv6.source;
        dst_ip = v6 ipv6.destination;
        payload = rest;
        protocol = ipv6.next_header;
        hdrlen = ipv6hdr;
      }))

parse_ipv4_packet : Pnet → List ℕ → Run (Option IpInfo)
unfolding parse_ipv4_view
parse_ipv4_packet pnet payload = parse_ipv4_view (pnet.ipv4 payload) payload

parse_ipv6_packet : Pnet → List ℕ → Run (Option IpInfo)
unfolding parse_ipv6_view
parse_ipv6_packet pnet payload = parse_ipv6_view (pnet.ipv6 payload) payload

unfoldable pub get_ip_info : Pnet → EthernetView → Run (Option IpInfo)
unfolding parse_ipv4_packet parse_ipv6_packet
get_ip_info pnet eth =
    if eth.ethertype == ipv4_type
    then parse_ipv4_packet pnet eth.payload
    else if eth.ethertype == ipv6_type
    then parse_ipv6_packet pnet eth.payload
    else ok none

-- the packet that is built once the IP header is known
assemble : Pnet → OwnedPacket → PcapMeta → EthernetView → IpInfo → ParsedPacket
assemble pnet packet meta eth info =
    let total_length = u16 packet.len in
    record {
      src_ip = info.src_ip;
      dst_ip = info.dst_ip;
      src_mac = eth.source;
      dst_mac = eth.destination;
      transport =
          from_data pnet info.payload info.protocol (sub_u16 total_length (info.hdrlen + eth_hlen));
      total_length = total_length;
      timestamp = timeval_to_system_time packet.ts;
      direction = from_mac eth.destination meta.mac_addr;
      intercepted = not (matches_ip meta info.src_ip) && not (matches_ip meta info.dst_ip);
    }

finish : Pnet → OwnedPacket → PcapMeta → EthernetView → Option IpInfo → Run (Option ParsedPacket)
unfolding assemble
finish pnet packet meta eth none = ok none
finish pnet packet meta eth (some info) = ok (some (assemble pnet packet meta eth info))

from_ethernet : Pnet → OwnedPacket → PcapMeta → Option EthernetView → Run (Option ParsedPacket)
unfolding finish get_ip_info
from_ethernet pnet packet meta none = ok none
from_ethernet pnet packet meta (some eth) = do
  info ← get_ip_info pnet eth
  finish pnet packet meta eth info

unfoldable pub from_packet : Pnet → OwnedPacket → PcapMeta → Run (Option ParsedPacket)
unfolding from_ethernet
from_packet pnet packet meta = from_ethernet pnet packet meta (pnet.ethernet packet.bytes)

abbrev pure_ack : TransportPacket → Bool
pure_ack (tcp s) = is_ack s.flags && s.payload_len == 0 || is_syn s.flags && is_ack s.flags
pure_ack _ = false

unfoldable pub is_pure_ack : ParsedPacket → Bool
is_pure_ack packet = pure_ack packet.transport

abbrev ignored : TransportPacket → Bool
ignored (tcp s) = is_rst s.flags || is_fin s.flags || is_syn s.flags
ignored _ = false

unfoldable ignore : ParsedPacket → Bool
ignore packet = ignored packet.transport

abbrev pub ports : TransportPacket → Option (ℕ × ℕ)
ports (tcp s) = some (s.src_port, s.dst_port)
ports (udp d) = some (d.src_port, d.dst_port)
ports _ = none

unfoldable pub get_src_dst_port : ParsedPacket → Option (ℕ × ℕ)
get_src_dst_port packet = ports packet.transport
