-- ===== src/Tracking/TcpStream.antt =====
-- src/listener/tracking/tcp_tracker.rs: one direction of a TCP connection.
pub mod Sequence
pub mod Acking
pub mod Registering
pub mod Closing
pub mod Measuring
pub mod Trips
use network_listener.Prelude.{
  ℕ, ◌+◌, ◌/◌, ◌<◌, Bool, true, false, ◌&&◌, ◌||◌, Option, none, some, List, [], ◌∷◌, ◌++◌, length,
  last, max, ltb, leb, ◌==◌, if◌then◌else◌, Run, ok, ◌>>=◌, u8, u32, sub_u32, SystemTime, Duration,
  duration_since, sort_by, by_key,
}
use network_listener.Prelude.BTreeMap
use network_listener.Prelude.BTreeMap.{BTreeMap}
use network_listener.Prelude.Int.{ℤ, le_zero, as_i32}
use network_listener.Packet.Transport.{TransportPacket, tcp, udp, icmp, other, TcpSegment, is_ack}
use network_listener.Packet.Parsed.{ParsedPacket}
use network_listener.Packet.DataPacket
use network_listener.Packet.DataPacket.{DataPacket, PacketType, modify}
use network_listener.Tracking.Burst.{
  Acked, TcpBurst, from_acked, no_burst, payload_len_of, sent_time_of,
}

unfoldable seq_cmp : ℕ → ℕ → ℤ
seq_cmp a b = as_i32 (sub_u32 a b)

unfoldable pub seq_less_equal : ℕ → ℕ → Bool
unfolding seq_cmp
seq_less_equal a b = le_zero (seq_cmp a b)

pub record TcpStream : Type 0 where
  pub packets : BTreeMap PacketType
  pub last_ack : Option SystemTime
  pub last_sent : Option SystemTime
  pub last_registered : Option SystemTime
  pub cur_burst : TcpBurst
  pub max_rtt : Duration

abbrev gap_since : Option SystemTime → SystemTime → Option Duration
gap_since none t = none
gap_since (some earlier) t = duration_since t earlier

unfoldable pub get_gap_last_sent : TcpStream → SystemTime → Option Duration × TcpStream
get_gap_last_sent s t = (gap_since s.last_sent t, record s { last_sent = some t })

unfoldable pub get_gap_last_ack : TcpStream → SystemTime → Option Duration × TcpStream
get_gap_last_ack s t = (gap_since s.last_ack t, record s { last_ack = some t })

-- what a packet that is sent again changes in the tracked one
resend : PacketType → DataPacket → DataPacket
resend again p = record p {
  retransmissions = u8 (p.retransmissions + 1);
  sent_time = sent_time_of again;
  gap_last_sent = (DataPacket.deref again).gap_last_sent;
}

tracked : Option PacketType → PacketType → PacketType
unfolding resend
tracked none packet = packet
tracked (some existing) packet = modify (resend packet) existing

unfoldable pub track_packet : TcpStream → ℕ → PacketType → TcpStream
unfolding tracked
track_packet s sequence packet = record s {
  packets = BTreeMap.insert sequence (tracked (BTreeMap.get sequence s.packets) packet) s.packets;
}

acknowledge : PacketType → Duration → DataPacket → DataPacket
acknowledge pkt rtt p = record p {
  rtt = some rtt;
  ack_time = some (sent_time_of pkt);
  gap_last_ack = (DataPacket.deref pkt).gap_last_ack;
}

-- one packet that an ack covers, and the longest round trip so far
unfoldable pub stamp : PacketType → PacketType → Option Duration → PacketType
unfolding acknowledge
stamp pkt sent_packet none = sent_packet
stamp pkt sent_packet (some rtt) = modify (acknowledge pkt rtt) sent_packet

unfoldable pub longer : Duration → Option Duration → Duration
longer max_rtt none = max_rtt
longer max_rtt (some rtt) = max max_rtt rtt

pub record AckPass : Type 0 where
  pub packets : BTreeMap PacketType
  pub max_rtt : Duration
  pub keys_to_remove : List ℕ

-- is a packet acknowledged as a whole?
abbrev pub is_covered : ℕ → ℕ → PacketType → Bool
is_covered acknowledgment seq p = seq_less_equal (u32 (seq + payload_len_of p)) acknowledgment

-- the loop over `iter_mut`, which breaks at the first packet that is not covered
ack_pass : ℕ → PacketType → Duration → BTreeMap PacketType → AckPass
unfolding stamp longer seq_less_equal
ack_pass acknowledgment pkt max_rtt [] = record {
  packets = [];
  max_rtt = max_rtt;
  keys_to_remove = [];
}
ack_pass acknowledgment pkt max_rtt ((seq, sent_packet) ∷ rest) =
    let rtt = duration_since (sent_time_of pkt) (sent_time_of sent_packet) in
    let later = ack_pass acknowledgment pkt (longer max_rtt rtt) rest in
    if is_covered acknowledgment seq sent_packet
    then record {
      packets = (seq, stamp pkt sent_packet rtt) ∷ later.packets;
      max_rtt = later.max_rtt;
      keys_to_remove = seq ∷ later.keys_to_remove;
    }
    else record { packets = (seq, sent_packet) ∷ rest; max_rtt = max_rtt; keys_to_remove = [] }

push_found : Option PacketType → List PacketType → List PacketType
push_found none acked = acked
push_found (some p) acked = p ∷ acked

-- the loop that removes the keys and collects their packets in order
take_keys : List ℕ → BTreeMap PacketType → List PacketType × BTreeMap PacketType
unfolding push_found
take_keys [] packets = ([], packets)
take_keys (seq ∷ keys) packets =
    let (acked, rest) = take_keys keys (BTreeMap.remove seq packets) in
    (push_found (BTreeMap.get seq packets) acked, rest)

unfoldable pub update_acked_packets : TcpStream → ℕ → PacketType → List PacketType × TcpStream
unfolding ack_pass take_keys
update_acked_packets s acknowledgment pkt =
    let pass = ack_pass acknowledgment pkt s.max_rtt s.packets in
    let (acked, rest) = take_keys pass.keys_to_remove pass.packets in
    (sort_by (by_key sent_time_of) acked, record s { packets = rest; max_rtt = pass.max_rtt })

gap_ends_burst : TcpStream → Option Duration → Bool
gap_ends_burst s none = false
gap_ends_burst s (some d) = ltb s.max_rtt d || ltb 100 (length s.cur_burst.packets)

burst_is_over : TcpStream → SystemTime → Option SystemTime → Bool
unfolding gap_ends_burst
burst_is_over s timestamp none = false
burst_is_over s timestamp (some last_registered) =
    gap_ends_burst s (duration_since timestamp last_registered)

-- the test at the start of `register_packet`, which hands the current burst out
unfoldable pub close_burst : TcpStream → SystemTime → Option TcpBurst × TcpStream
unfolding burst_is_over no_burst
close_burst s timestamp =
    if ltb 0 (length s.cur_burst.packets) && burst_is_over s timestamp s.last_registered
    then (
      some s.cur_burst,
      record s { cur_burst = no_burst; last_registered = none; max_rtt = s.max_rtt / 2 },
    )
    else (none, s)

abbrev set_gap_last_ack : Option Duration → DataPacket → DataPacket
set_gap_last_ack gap p = record p { gap_last_ack = gap }

abbrev set_gap_last_sent : Option Duration → DataPacket → DataPacket
set_gap_last_sent gap p = record p { gap_last_sent = gap }

-- a pure ack acknowledges tracked packets; any other segment is tracked
unfoldable pub take_segment : TcpStream → TcpSegment → PacketType → List PacketType × TcpStream
unfolding update_acked_packets track_packet get_gap_last_ack get_gap_last_sent
take_segment s segment pkt =
    let (ack_gap, acking) = get_gap_last_ack s (sent_time_of pkt) in
    let (sent_gap, sending) = get_gap_last_sent s (sent_time_of pkt) in
    if is_ack segment.flags && segment.payload_len == 0
    then update_acked_packets acking segment.acknowledgment (modify (set_gap_last_ack ack_gap) pkt)
    else ([], track_packet sending segment.sequence (modify (set_gap_last_sent sent_gap) pkt))

prev_last_sent : Option Acked → Option SystemTime
prev_last_sent none = none
prev_last_sent (some prev_ack) = some prev_ack.last_sent_time

-- a group is pushed only if the ack covered a packet
unfoldable pub push_group : TcpStream → List PacketType → SystemTime → Run TcpStream
unfolding prev_last_sent
push_group s [] timestamp = ok s
push_group s (p ∷ ps) timestamp = do
  group ← from_acked (p ∷ ps) timestamp (prev_last_sent (last s.cur_burst.packets))
  ok (record s { cur_burst = record { packets = s.cur_burst.packets ++ group ∷ [] } })

abbrev set_last_registered : SystemTime → TcpStream → TcpStream
set_last_registered timestamp s = record s { last_registered = some timestamp }

register_transport : TcpStream → ParsedPacket → TransportPacket → Run (TcpStream × Option TcpBurst)
unfolding close_burst take_segment push_group
register_transport s packet (tcp segment) = do
  let closed = close_burst s packet.timestamp
  let taken = take_segment closed.1 segment (DataPacket.from_packet packet)
  pushed ← push_group taken.1 taken.0 packet.timestamp
  ok (set_last_registered packet.timestamp pushed, closed.0)
register_transport s packet _ = ok (set_last_registered packet.timestamp s, none)

unfoldable pub register_packet : TcpStream → ParsedPacket → Run (TcpStream × Option TcpBurst)
unfolding register_transport
register_packet s packet = register_transport s packet packet.transport

-- `TcpTracker::new` makes two of these
unfoldable pub new : TcpStream
unfolding no_burst
new = record {
  packets = [];
  last_ack = none;
  last_sent = none;
  last_registered = none;
  cur_burst = no_burst;
  max_rtt = 10000000000;
}
