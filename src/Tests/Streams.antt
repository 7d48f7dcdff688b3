-- ===== src/Tests/Streams.antt =====
-- TCP streams, trackers and bursts at concrete inputs.
use network_listener.Prelude.{
  ◌-◌, ◌>>=◌, ℕ, zero, suc, ◌+◌, ◌≤◌, ◌<◌, ◌≡◌, ◌↔◌, ◌⊎◌, refl, true, none, some, List, [], ◌∷◌,
  ◌++◌, length, Returns, ok, u32, arith, from_secs, sort_by, by_key, Option,
}
use network_listener.Packet.Direction.{incoming}
use network_listener.Packet.Transport.{is_ack}
use network_listener.Packet.Parsed.{is_pure_ack}
use network_listener.Packet.DataPacket
use network_listener.Packet.DataPacket.{PacketType, sent}
use network_listener.Tracking.Burst.{Acked, TcpBurst, sent_time_of, get_time_duration}
use network_listener.Tracking.Burst.Measures.{IsGroup, latest_of, get_time_duration-latest}
use network_listener.Tracking.TcpStream
use network_listener.Tracking.TcpStream.Measuring.{rtts_of, register_packet-rtt}
use network_listener.Tracking.TcpStream.{
  TcpStream, seq_less_equal, is_covered, update_acked_packets, register_packet,
}
use network_listener.Tracking.TcpStream.Sequence.{seq_less_equal-window}
use network_listener.Tracking.TcpStream.Acking.{
  covered, uncovered, stamped_values, longest, update_acked_packets_lem, update_acked_packets_wrap,
}
use network_listener.Tracking.TcpStream.Registering.{
  IsWellFormed, IsWhole, held, handed_out, joins, register_packet_total,
}
use network_listener.Tracking.TcpStream.Closing.{register_packet_bounded, register_packet-hands_out}
use network_listener.Tracking.TcpTracker
use network_listener.Tracking.TcpTracker.{TcpTracker}
use network_listener.Tracking.TcpTracker.Routing.{
  Routes, data_direction, new-IsValid, register_packet-Routes,
}
use network_listener.Tracking.UdpTracker
use network_listener.Tracking.UdpTracker.{UdpTracker}
use network_listener.Tracking.UdpTracker.Rolling.{
  burst_of, last_of, handed, register_packet-append, register_packet_overgrown,
}
use network_listener.Tests.{
  data_segment, sent_datum, ack_datum, data_packet, ack_packet, ack_segment, udp_packet,
}

seq_less_equal-window_example :
    (seq_less_equal (u32 (4294967290 + 3)) (u32 (4294967290 + 20)) ≡ true) ↔ (3 ≤ 20)
seq_less_equal-window_example = seq_less_equal-window 4294967290 3 20 (omega arith) (omega arith)

-- two packets tracked, of which an ack of 1100 covers the first
abbrev stream : TcpStream
stream = record {
  packets = (1000, sent_datum) ∷ (1100, sent_datum) ∷ [];
  last_ack = none;
  last_sent = some (from_secs 5);
  last_registered = some (from_secs 5);
  cur_burst = record { packets = [] };
  max_rtt = from_secs 10;
}

stream-IsWellFormed : IsWellFormed stream
stream-IsWellFormed = record { ordered = ground arith; grouped = tt }

update_acked_packets_lem_example : update_acked_packets stream 1100 ack_datum ≡ (
  sort_by (by_key sent_time_of) (stamped_values ack_datum (covered 1100 stream.packets)),
  record stream {
    packets = uncovered 1100 stream.packets;
    max_rtt = longest ack_datum stream.max_rtt (covered 1100 stream.packets);
  },
)
update_acked_packets_lem_example = update_acked_packets_lem stream 1100 ack_datum

-- the first 100 bytes end at the wrap
abbrev wrapping : TcpStream
wrapping = record stream { packets = (0, sent_datum) ∷ (4294967196, sent_datum) ∷ [] }

update_acked_packets_wrap_example :
    (is_covered 0 4294967196 sent_datum ≡ true)
    × (update_acked_packets wrapping 0 ack_datum ≡ ([], wrapping))
update_acked_packets_wrap_example =
    update_acked_packets_wrap wrapping sent_datum sent_datum ack_datum (omega arith) (omega arith)
      (omega arith) (omega arith) refl

register_packet_total_example : Returns (register_packet stream ack_packet) λ r.
    IsWellFormed r.0
    × IsWhole r.1
    × (held r.0 + handed_out r.1 ≡ held stream + joins stream ack_packet.transport)
    × (r.0.last_registered ≡ some ack_packet.timestamp)
register_packet_total_example = register_packet_total stream ack_packet stream-IsWellFormed

abbrev group : Acked
group = record {
  acked_packets = sent_datum ∷ [];
  ack_time = from_secs 6;
  first_sent_time = none;
  last_sent_time = from_secs 5;
  total_length = 154;
}

group-IsGroup_lem : IsGroup group
group-IsGroup_lem = record { some_packet = omega arith; length_kept = refl }

abbrev burst : TcpBurst
burst = record { packets = group ∷ group ∷ [] }

-- a stream whose burst ends, since more than the longest round trip has gone by
abbrev idle : TcpStream
idle = record stream {
  packets = [];
  last_registered = some (from_secs 5);
  cur_burst = burst;
  max_rtt = 500000000;
}

idle-IsWellFormed : IsWellFormed idle
idle-IsWellFormed = record {
  ordered = ground arith;
  grouped = (group-IsGroup_lem, (group-IsGroup_lem, tt));
}

abbrev idle_after : TcpStream × Option TcpBurst
idle_after = (
  record idle {
    last_ack = some (from_secs 6);
    last_registered = some (from_secs 6);
    cur_burst = record { packets = [] };
    max_rtt = 250000000;
  },
  some burst,
)

idle-register : register_packet idle ack_packet ≡ ok idle_after
unfolding register_packet is_ack sort_by DataPacket.from_packet DataPacket.from_parsed
idle-register = refl

abbrev IsLate : Type 0
IsLate = idle.max_rtt + from_secs 5 < ack_packet.timestamp

register_packet_bounded_example : length idle_after.0.cur_burst.packets ≤ 101
register_packet_bounded_example =
    register_packet_bounded idle ack_packet ack_segment {r = idle_after} idle-IsWellFormed
      (omega arith) refl idle-register

register_packet-hands_out_example :
    ((idle_after.1 ≡ some idle.cur_burst) × (0 < 2) × (IsLate ⊎ (100 < 2)))
    ⊎ ((idle_after.1 ≡ none)
        × ((length burst.packets ≡ 0)
            ⊎ ((ack_packet.timestamp ≤ idle.max_rtt + from_secs 5) × (2 ≤ 100))))
register_packet-hands_out_example =
    register_packet-hands_out idle ack_packet ack_segment (from_secs 5) {r = idle_after} refl refl
      (omega arith) idle-register

get_time_duration-latest_example :
    get_time_duration (sent_datum ∷ ack_datum ∷ []) ≡ some (latest_of (sent_datum ∷ ack_datum ∷ []))
get_time_duration-latest_example = get_time_duration-latest sent_datum ack_datum []

register_packet-Routes_example : Returns (TcpTracker.register_packet TcpTracker.new data_packet) (
    Routes TcpTracker.new data_packet
      (data_direction data_packet.direction (is_pure_ack data_packet)))
register_packet-Routes_example = register_packet-Routes TcpTracker.new data_packet new-IsValid

-- a flow that took in `n` packets, the last one 5 s after the epoch
abbrev copies : ℕ → List PacketType
copies zero = []
copies (suc n) = sent_datum ∷ copies n

abbrev flow : ℕ → UdpTracker
flow n = record {
  state = none;
  burst_in = copies n;
  burst_out = [];
  last_in = from_secs 5;
  last_out = from_secs 5;
}

register_packet-append_example :
    (handed (UdpTracker.register_packet (flow 3) udp_packet).1
        ++ burst_of (UdpTracker.register_packet (flow 3) udp_packet).0 incoming
      ≡ copies 3 ++ DataPacket.from_packet udp_packet ∷ [])
    × (last_of (UdpTracker.register_packet (flow 3) udp_packet).0 incoming ≡ udp_packet.timestamp)
register_packet-append_example = register_packet-append (flow 3) udp_packet

register_packet_overgrown_example :
    ((UdpTracker.register_packet (flow 101) udp_packet).1 ≡ none)
    × (length (burst_of (UdpTracker.register_packet (flow 101) udp_packet).0 incoming) ≡ 102)
register_packet_overgrown_example =
    register_packet_overgrown (flow 101) udp_packet (omega arith) (omega arith)

register_packet-rtt_example :
    Returns
      (register_packet TcpStream.new data_packet >>= λ r. register_packet r.0 ack_packet)
      λ r. (r.1 ≡ none) × (r.0.packets ≡ []) × (rtts_of r.0 ≡ some (from_secs 6 - from_secs 5) ∷ [])
register_packet-rtt_example =
    register_packet-rtt data_packet ack_packet data_segment ack_segment refl refl
      (unfold is_ack in refl) (unfold is_ack in refl) (unfold seq_less_equal in refl) (omega arith)
