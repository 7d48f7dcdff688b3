-- ===== src/Packet/Transport.antt =====
-- src/listener/packet/transport_packet.rs. The header views of `pnet` are given as a `Pnet`.
pub mod RoundTrip
pub mod Fields
use Prim.Native.Nat.{bit_and}
use network_listener.Prelude.{
  ℕ, ◌+◌, ◌*◌, ◌^◌, Bool, not, Option, none, some, List, [], ◌∷◌, ◌==◌, if◌then◌else◌, sub_u16,
}

-- `IpNextHeaderProtocol`, with the numbers that IANA assigns
abbrev pub Protocol : Type 0
Protocol = ℕ

abbrev pub tcp_protocol : Protocol
tcp_protocol = 6

abbrev pub udp_protocol : Protocol
udp_protocol = 17

abbrev icmp_protocol : Protocol
icmp_protocol = 1

-- the flags byte
abbrev TcpFlags : Type 0
TcpFlags = ℕ

abbrev syn : ℕ
syn = 0x02

abbrev pub ack : ℕ
ack = 0x10

abbrev fin : ℕ
fin = 0x01

abbrev rst : ℕ
rst = 0x04

unfoldable pub is_syn : TcpFlags → Bool
is_syn flags = not (bit_and flags syn == 0)

unfoldable pub is_ack : TcpFlags → Bool
is_ack flags = not (bit_and flags ack == 0)

unfoldable pub is_fin : TcpFlags → Bool
is_fin flags = not (bit_and flags fin == 0)

unfoldable pub is_rst : TcpFlags → Bool
is_rst flags = not (bit_and flags rst == 0)

pub record TcpOptions : Type 0 where
  pub tsval : Option ℕ
  pub tsecr : Option ℕ
  pub scale : Option ℕ
  pub mss : Option ℕ

unfoldable pub no_options : TcpOptions
no_options = record { tsval = none; tsecr = none; scale = none; mss = none }

-- one item of `TcpOptionIterable`: `get_number()` and `payload()`
pub record TcpOption : Type 0 where
  pub number : ℕ
  pub payload : List ℕ

-- `TcpOptionNumbers`
abbrev pub mss_option : ℕ
mss_option = 2

abbrev pub wscale_option : ℕ
wscale_option = 3

abbrev pub timestamps_option : ℕ
timestamps_option = 8

-- `u32::from_be_bytes` and `u16::from_be_bytes`
abbrev pub be_u32 : ℕ → ℕ → ℕ → ℕ → ℕ
be_u32 a b c d = a * 2 ^ 24 + b * 2 ^ 16 + c * 2 ^ 8 + d

abbrev pub be_u16 : ℕ → ℕ → ℕ
be_u16 a b = a * 2 ^ 8 + b

-- a payload of another length is logged and skipped
set_timestamps : List ℕ → TcpOptions → TcpOptions
set_timestamps (a ∷ b ∷ c ∷ d ∷ e ∷ f ∷ g ∷ h ∷ []) options = record options {
  tsval = some (be_u32 a b c d);
  tsecr = some (be_u32 e f g h);
}
set_timestamps _ options = options

set_scale : List ℕ → TcpOptions → TcpOptions
set_scale (a ∷ []) options = record options { scale = some a }
set_scale _ options = options

set_mss : List ℕ → TcpOptions → TcpOptions
set_mss (a ∷ b ∷ []) options = record options { mss = some (be_u16 a b) }
set_mss _ options = options

-- the body of the loop
read_option : TcpOption → TcpOptions → TcpOptions
unfolding set_timestamps set_scale set_mss
read_option option options =
    if option.number == timestamps_option
    then set_timestamps option.payload options
    else if option.number == wscale_option
    then set_scale option.payload options
    else if option.number == mss_option
    then set_mss option.payload options
    else options

read_options : List TcpOption → TcpOptions → TcpOptions
unfolding read_option
read_options [] options = options
read_options (option ∷ rest) options = read_options rest (read_option option options)

unfoldable pub from_bytes : List TcpOption → TcpOptions
unfolding read_options no_options
from_bytes tcp_options = read_options tcp_options no_options

-- the variant `TCP { .. }`
pub record TcpSegment : Type 0 where
  pub sequence : ℕ
  pub acknowledgment : ℕ
  pub flags : TcpFlags
  pub payload_len : ℕ
  pub options : TcpOptions
  pub src_port : ℕ
  pub dst_port : ℕ
  pub window_size : ℕ

-- the variant `UDP { .. }`
pub record UdpDatagram : Type 0 where
  pub src_port : ℕ
  pub dst_port : ℕ
  pub payload_len : ℕ

pub data TransportPacket : Type 0 where
  tcp : TcpSegment → TransportPacket
  udp : UdpDatagram → TransportPacket
  icmp : TransportPacket
  other : Protocol → TransportPacket

unfoldable pub get_ip_proto : TransportPacket → Protocol
get_ip_proto (tcp s) = tcp_protocol
get_ip_proto (udp d) = udp_protocol
get_ip_proto icmp = icmp_protocol
get_ip_proto (other protocol) = protocol

-- what `TcpPacket` and `UdpPacket` read from the bytes
pub record TcpView : Type 0 where
  pub data_offset : ℕ
  pub sequence : ℕ
  pub acknowledgement : ℕ
  pub flags : ℕ
  pub options : List TcpOption
  pub source : ℕ
  pub destination : ℕ
  pub window : ℕ

pub record UdpView : Type 0 where
  pub source : ℕ
  pub destination : ℕ

pub record EthernetView : Type 0 where
  pub destination : ℕ
  pub source : ℕ
  pub ethertype : ℕ
  pub payload : List ℕ

pub record Ipv4View : Type 0 where
  pub source : ℕ
  pub destination : ℕ
  pub header_length : ℕ
  pub protocol : Protocol

pub record Ipv6View : Type 0 where
  pub source : ℕ
  pub destination : ℕ
  pub next_header : Protocol

-- `EthernetPacket::new` and the like, `none` where the buffer is too short
pub record Pnet : Type 0 where
  pub ethernet : List ℕ → Option EthernetView
  pub ipv4 : List ℕ → Option Ipv4View
  pub ipv6 : List ℕ → Option Ipv6View
  pub tcp : List ℕ → Option TcpView
  pub udp : List ℕ → Option UdpView

tcp_from_view : Option TcpView → Protocol → ℕ → TransportPacket
unfolding from_bytes
tcp_from_view none protocol payload_len = other protocol
tcp_from_view (some view) protocol payload_len =
    let hdr_size = view.data_offset * 4 in
    tcp (record {
      sequence = view.sequence;
      acknowledgment = view.acknowledgement;
      flags = view.flags;
      payload_len = sub_u16 payload_len hdr_size;
      options = from_bytes view.options;
      src_port = view.source;
      dst_port = view.destination;
      window_size = view.window;
    })

udp_from_view : Option UdpView → Protocol → ℕ → TransportPacket
udp_from_view none protocol payload_len = other protocol
udp_from_view (some view) protocol payload_len =
    udp (record { src_port = view.source; dst_port = view.destination; payload_len = payload_len })

unfoldable pub from_data : Pnet → List ℕ → Protocol → ℕ → TransportPacket
unfolding tcp_from_view udp_from_view
from_data pnet payload protocol payload_len =
    if protocol == tcp_protocol
    then tcp_from_view (pnet.tcp payload) protocol payload_len
    else if protocol == udp_protocol
    then udp_from_view (pnet.udp payload) protocol payload_len
    else if protocol == icmp_protocol
    then icmp
    else other protocol
