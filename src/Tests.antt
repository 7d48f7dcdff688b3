-- ===== src/Tests.antt =====
-- The data of the tests, and runs of the model on it.
use network_listener.Prelude.{ℕ, ◌+◌, none, some, List, [], ◌∷◌, false, SystemTime, from_secs}
use network_listener.Packet.Direction.{Direction, incoming, outgoing}
use network_listener.Packet.Ip.{v4}
use network_listener.Packet.Transport.{
  TcpSegment, TransportPacket, tcp, udp, Pnet, EthernetView, Ipv4View, TcpOption,
}
use network_listener.Packet.Parsed.{ParsedPacket}
use network_listener.Packet.DataPacket.{DataPacket, PacketType, sent, received}
use network_listener.Capture.{OwnedPacket, PcapMeta}
mod Packets
mod Delivering
mod Streams
mod Managers
mod Estimates
mod Links
mod Collecting
mod Clients
mod Probes

-- two addresses, small so that they compare quickly
abbrev pub own_ip : ℕ
own_ip = 10

abbrev pub far_ip : ℕ
far_ip = 20

abbrev pub segment_of : ℕ → ℕ → ℕ → ℕ → ℕ → ℕ → TcpSegment
segment_of sequence acknowledgment flags payload_len src_port dst_port = record {
  sequence = sequence;
  acknowledgment = acknowledgment;
  flags = flags;
  payload_len = payload_len;
  options = record { tsval = none; tsecr = none; scale = none; mss = none };
  src_port = src_port;
  dst_port = dst_port;
  window_size = 65535;
}

abbrev pub data_segment : TcpSegment
data_segment = segment_of 1000 1 0x18 100 40000 443

abbrev pub ack_segment : TcpSegment
ack_segment = segment_of 1 1100 0x10 0 443 40000

abbrev packet_of : Direction → SystemTime → ℕ → TransportPacket → ParsedPacket
packet_of incoming timestamp total_length transport = record {
  src_ip = v4 far_ip;
  dst_ip = v4 own_ip;
  src_mac = 2;
  dst_mac = 1;
  transport = transport;
  total_length = total_length;
  timestamp = timestamp;
  direction = incoming;
  intercepted = false;
}
packet_of outgoing timestamp total_length transport = record {
  src_ip = v4 own_ip;
  dst_ip = v4 far_ip;
  src_mac = 1;
  dst_mac = 2;
  transport = transport;
  total_length = total_length;
  timestamp = timestamp;
  direction = outgoing;
  intercepted = false;
}

abbrev pub data_packet : ParsedPacket
data_packet = packet_of outgoing (from_secs 5) 154 (tcp data_segment)

abbrev pub ack_packet : ParsedPacket
ack_packet = packet_of incoming (from_secs 6) 54 (tcp ack_segment)

abbrev pub udp_packet : ParsedPacket
udp_packet =
    packet_of incoming (from_secs 5) 142
      (udp (record { src_port = 53; dst_port = 5353; payload_len = 100 }))

abbrev datum : SystemTime → ℕ → DataPacket
datum sent_time payload_len = record {
  payload_len = payload_len;
  total_length = payload_len + 54;
  sent_time = sent_time;
  ack_time = none;
  gap_last_ack = none;
  gap_last_sent = none;
  retransmissions = 0;
  rtt = none;
}

abbrev pub sent_datum : PacketType
sent_datum = sent (datum (from_secs 5) 100)

abbrev pub ack_datum : PacketType
ack_datum = received (datum (from_secs 6) 0)

abbrev pub ipv4_frame : EthernetView
ipv4_frame = record { destination = 1; source = 2; ethertype = 0x0800; payload = 1 ∷ 2 ∷ 3 ∷ [] }

abbrev pub ipv4_header : Ipv4View
ipv4_header = record { source = far_ip; destination = own_ip; header_length = 5; protocol = 6 }

-- every frame is read as the two headers
abbrev pub reader : Pnet
reader = record {
  ethernet = λ bytes. some ipv4_frame;
  ipv4 = λ bytes. some ipv4_header;
  ipv6 = λ bytes. none;
  tcp = λ bytes. none;
  udp = λ bytes. none;
}

abbrev pub captured : OwnedPacket
captured = record { ts = record { tv_sec = 5; tv_usec = 7 }; caplen = 17; len = 17; bytes = [] }

abbrev pub own_device : PcapMeta
own_device = record { mac_addr = 1; ipv4 = own_ip; ipv6 = 0; name = "eth0" }
