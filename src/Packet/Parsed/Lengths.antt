-- ===== src/Packet/Parsed/Lengths.antt =====
-- When parsing a frame panics, and the lengths and addresses of what it yields.
use network_listener.Prelude.{
  ℕ, List, sub_u16, u16, sym, subst, ◌↔◌, ◌*◌, ◌+◌, ◌<◌, ◌≤◌, ◌≡◌, refl, ok, some, length, drop,
  panic, arith,
}
use network_listener.Packet.Ip.{v4}
use network_listener.Packet.Transport.{
  Pnet, Ipv4View, EthernetView, TcpView, TransportPacket, tcp, TcpSegment, tcp_protocol, from_data,
  from_bytes,
}
use network_listener.Capture.{OwnedPacket, PcapMeta, Timeval}
use network_listener.Packet.Parsed.{
  ParsedPacket, nano, system_time_of, timeval_to_system_time, ipv4_type, word_size, from_packet,
  from_ethernet, assemble, IpInfo, slice_from, get_ip_info, eth_hlen,
}

-- A time stamp with a fraction in nanoseconds, below a second, is read correctly exactly when the
-- fraction is zero, since the parser takes every stamp for one in microseconds.
pub timeval_nano :
    (tv : Timeval)
    → tv.tv_usec < 1000000000
    → (timeval_to_system_time tv ≡ system_time_of nano tv) ↔ (tv.tv_usec ≡ 0)
unfolding timeval_to_system_time system_time_of
timeval_nano tv h = (λ e. omega arith, λ e. omega arith)

-- A frame that is IPv4 by its type and header makes `from_packet` panic exactly when the header
-- length in it points past the captured bytes.
pub from_packet-panics :
    (pnet : Pnet) (packet : OwnedPacket) (meta : PcapMeta) (eth : EthernetView) (ip : Ipv4View)
    → pnet.ethernet packet.bytes ≡ some eth
    → eth.ethertype ≡ ipv4_type
    → pnet.ipv4 eth.payload ≡ some ip
    → (from_packet pnet packet meta ≡ panic) ↔ (length eth.payload < ip.header_length * word_size)
unfolding from_packet
from_packet-panics pnet packet meta eth ip e t i = rw (e, from_ethernet) (ground arith)

info_of : EthernetView → Ipv4View → IpInfo
info_of eth ip = record {
  src_ip = v4 ip.source;
  dst_ip = v4 ip.destination;
  payload = drop (ip.header_length * word_size) eth.payload;
  protocol = ip.protocol;
  hdrlen = ip.header_length * word_size;
}

slice_from-ok : (n : ℕ) (xs : List ℕ) → n ≤ length xs → slice_from n xs ≡ ok (drop n xs)
slice_from-ok n xs h = ground arith

get_ip_info-v4 :
    (pnet : Pnet) (eth : EthernetView) (ip : Ipv4View)
    → eth.ethertype ≡ ipv4_type
    → pnet.ipv4 eth.payload ≡ some ip
    → ip.header_length * word_size ≤ length eth.payload
    → get_ip_info pnet eth ≡ ok (some (info_of eth ip))
unfolding get_ip_info info_of
get_ip_info-v4 pnet eth ip t i captured =
    simp (t, i, slice_from-ok (ip.header_length * word_size) eth.payload captured) refl

segment_of : TcpView → ℕ → TcpSegment
segment_of view payload_len = record {
  sequence = view.sequence;
  acknowledgment = view.acknowledgement;
  flags = view.flags;
  payload_len = sub_u16 payload_len (view.data_offset * 4);
  options = from_bytes view.options;
  src_port = view.source;
  dst_port = view.destination;
  window_size = view.window;
}

from_data-tcp :
    (pnet : Pnet) (payload : List ℕ) (protocol payload_len : ℕ) (view : TcpView)
    → protocol ≡ tcp_protocol
    → pnet.tcp payload ≡ some view
    → from_data pnet payload protocol payload_len ≡ tcp (segment_of view payload_len)
unfolding from_data segment_of
from_data-tcp pnet payload protocol payload_len view proto v = rw (proto, v) refl

-- what a parsed TCP packet says of the frame it came from
abbrev pub IsTcpOf :
    OwnedPacket → EthernetView → Ipv4View → TcpView → ParsedPacket → TransportPacket → Type 0
IsTcpOf packet eth ip view p (tcp segment) =
    (segment.payload_len + view.data_offset * 4 + ip.header_length * 4 + 14 ≡ packet.len)
    × (segment.sequence ≡ view.sequence)
    × (segment.acknowledgment ≡ view.acknowledgement)
    × (p.total_length ≡ packet.len)
    × (p.src_ip ≡ v4 ip.source)
    × (p.dst_ip ≡ v4 ip.destination)
    × (p.timestamp ≡ timeval_to_system_time packet.ts)
IsTcpOf packet eth ip view p _ = ⊥

-- A TCP segment over IPv4 whose headers fit into a frame of less than 64 KiB, and whose IP header was
-- captured, is parsed without a panic: the payload and the three headers add up to the length of the
-- frame, and numbers, addresses and time are the frame's.
pub from_packet-lengths :
    (pnet : Pnet) (packet : OwnedPacket) (meta : PcapMeta) (eth : EthernetView) (ip : Ipv4View)
    (view : TcpView)
    → pnet.ethernet packet.bytes ≡ some eth
    → eth.ethertype ≡ ipv4_type
    → pnet.ipv4 eth.payload ≡ some ip
    → ip.protocol ≡ tcp_protocol
    → ip.header_length * word_size ≤ length eth.payload
    → pnet.tcp (drop (ip.header_length * word_size) eth.payload) ≡ some view
    → view.data_offset * 4 + ip.header_length * 4 + 14 ≤ packet.len
    → packet.len < 65536
    → (p : ParsedPacket) × (from_packet pnet packet meta ≡ ok (some p))
      × IsTcpOf packet eth ip view p p.transport
unfolding from_packet assemble info_of segment_of
from_packet-lengths pnet packet meta eth ip view e t i proto captured v fits short =
    let info = info_of eth ip in
    let n = sub_u16 (u16 packet.len) (info.hdrlen + eth_hlen) in
    let parsed = from_data-tcp pnet info.payload info.protocol n view proto v in
    (
      assemble pnet packet meta eth info,
      rw (e, from_ethernet, get_ip_info-v4 pnet eth ip t i captured) refl,
      subst (IsTcpOf packet eth ip view (assemble pnet packet meta eth info)) (sym parsed)
          (omega arith, refl, refl, omega arith, refl, refl, refl),
    )
