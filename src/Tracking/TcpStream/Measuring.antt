-- ===== src/Tracking/TcpStream/Measuring.antt =====
-- From a packet to its ack: the round trip that a stream measures.
use network_listener.Prelude.{
  ℕ, ◌+◌, ◌-◌, ◌≤◌, ◌≡◌, refl, true, false, ◌&&◌, ◌==◌, Option, none, some, List, [], ◌∷◌, map, u32,
  Run, ok, ◌>>=◌, Returns, arith, sort_by, ◌∙◌, duration_since, ap, sym, subst,
}
use network_listener.Prelude.BTreeMap
use network_listener.Packet.Transport.{tcp, TcpSegment, is_ack}
use network_listener.Packet.Parsed.{ParsedPacket}
use network_listener.Packet.Direction.{Direction, incoming, outgoing}
use network_listener.Packet.DataPacket
use network_listener.Packet.DataPacket.{PacketType, deref, modify, sent, received}
use network_listener.Tracking.Burst.{
  from_acked, flatten_tcp, no_burst, sent_time_of, payload_len_of, TcpBurst,
}
use network_listener.Tracking.TcpStream.{
  TcpStream, new, register_packet, register_transport, seq_less_equal, update_acked_packets,
  take_segment, track_packet, close_burst, push_group, tracked, set_gap_last_sent,
  get_gap_last_sent, get_gap_last_ack, is_covered, stamp, longer, gap_since, set_gap_last_ack,
  set_last_registered,
}
use network_listener.Tracking.TcpStream.Acking.{
  is_covered_lem, stamp_lem, longer_lem, update_acked_packets_lem,
}

unfoldable pub rtts_of : TcpStream → List (Option ℕ)
unfolding flatten_tcp
rtts_of s = map (λ (p : PacketType). (deref p).rtt) (flatten_tcp s.cur_burst)

-- the tracked form of a data packet that comes first
abbrev tracked_form : ParsedPacket → PacketType
tracked_form packet = modify (set_gap_last_sent none) (DataPacket.from_packet packet)

-- a stream that has sent one packet and heard nothing
abbrev waiting : ParsedPacket → TcpSegment → TcpStream
waiting packet segment = record {
  packets = (segment.sequence, tracked_form packet) ∷ [];
  last_ack = none;
  last_sent = some (sent_time_of (DataPacket.from_packet packet));
  last_registered = some packet.timestamp;
  cur_burst = no_burst;
  max_rtt = 10000000000;
}

first_packet :
    (packet : ParsedPacket) (segment : TcpSegment)
    → (is_ack segment.flags && segment.payload_len == 0) ≡ false
    → register_transport new packet (tcp segment) ≡ ok (waiting packet segment, none)
unfolding register_transport new take_segment track_packet tracked BTreeMap.insert BTreeMap.get
    get_gap_last_sent close_burst push_group no_burst
first_packet packet segment dn = rw dn refl

timestamp-from_packet :
    (packet : ParsedPacket) → sent_time_of (DataPacket.from_packet packet) ≡ packet.timestamp
unfolding DataPacket.from_packet DataPacket.from_parsed
timestamp-from_packet packet = by_direction packet.direction
  where
    by_direction :
        (d : Direction)
        → sent_time_of (elim d [
          | incoming ↦ received (DataPacket.from_parsed packet)
          | outgoing ↦ sent (DataPacket.from_parsed packet)
        ])
          ≡ packet.timestamp
    by_direction incoming = refl
    by_direction outgoing = refl

duration_since-some : {t earlier : ℕ} → earlier ≤ t → duration_since t earlier ≡ some (t - earlier)
duration_since-some {t} {earlier} h = ground arith

-- a stream with one tracked packet and no current burst
abbrev holding : TcpStream → ℕ → PacketType → TcpStream
holding s seq p = record s { packets = (seq, p) ∷ []; cur_burst = no_burst }

release_one :
    (s : TcpStream) (ack seq : ℕ) (pkt p : PacketType)
    → is_covered ack seq p ≡ true
    → sent_time_of p ≤ sent_time_of pkt
    → update_acked_packets (holding s seq p) ack pkt ≡ (
      stamp pkt p (some (sent_time_of pkt - sent_time_of p)) ∷ [],
      record s {
        packets = [];
        max_rtt = longer s.max_rtt (some (sent_time_of pkt - sent_time_of p));
        cur_burst = no_burst;
      },
    )
unfolding sort_by
release_one s ack seq pkt p covered later =
    rw
      (
        update_acked_packets_lem (holding s seq p) ack pkt,
        sym (is_covered_lem ack seq p) ∙ covered,
        duration_since-some later,
        stamp_lem pkt p (some (sent_time_of pkt - sent_time_of p)),
        longer_lem s.max_rtt (some (sent_time_of pkt - sent_time_of p)),
      )
      refl

rtt-stamp : (pkt p : PacketType) (rtt : ℕ) → (deref (stamp pkt p (some rtt))).rtt ≡ some rtt
unfolding stamp
rtt-stamp pkt (sent p) rtt = refl
rtt-stamp pkt (received p) rtt = refl

sent_time-modify :
    (gap : Option ℕ) (p : PacketType)
    → sent_time_of (modify (set_gap_last_ack gap) p) ≡ sent_time_of p
sent_time-modify gap (sent p) = refl
sent_time-modify gap (received p) = refl

-- what is left to do once the segment has been taken
abbrev finish : ParsedPacket → List PacketType × TcpStream → Run (TcpStream × Option TcpBurst)
finish packet taken = do
  pushed ← push_group taken.1 taken.0 packet.timestamp
  ok (set_last_registered packet.timestamp pushed, none)

transport_open :
    (packet : ParsedPacket) (segment : TcpSegment) (s : TcpStream) (seq : ℕ) (p : PacketType)
    → register_transport (holding s seq p) packet (tcp segment)
      ≡ finish packet (take_segment (holding s seq p) segment (DataPacket.from_packet packet))
unfolding register_transport close_burst no_burst
transport_open packet segment s seq p = refl

-- the ack as it is kept, with the gap to the one before
abbrev kept_ack : TcpStream → PacketType → PacketType
kept_ack s pkt = modify (set_gap_last_ack (gap_since s.last_ack (sent_time_of pkt))) pkt

take_one :
    (s : TcpStream) (seq : ℕ) (p : PacketType) (segment : TcpSegment) (pkt : PacketType)
    → (is_ack segment.flags && segment.payload_len == 0) ≡ true
    → take_segment (holding s seq p) segment pkt
      ≡ update_acked_packets
          (holding (record s { last_ack = some (sent_time_of pkt) }) seq p)
          segment.acknowledgment
          (kept_ack s pkt)
unfolding take_segment get_gap_last_ack
take_one s seq p segment pkt an = rw an refl

ack_single :
    (packet : ParsedPacket) (segment : TcpSegment) (s : TcpStream) (seq : ℕ) (p : PacketType)
    → (is_ack segment.flags && segment.payload_len == 0) ≡ true
    → is_covered segment.acknowledgment seq p ≡ true
    → sent_time_of p ≤ packet.timestamp
    → Returns (register_transport (holding s seq p) packet (tcp segment)) λ r.
      (r.1 ≡ none)
      × (r.0.packets ≡ [])
      × (rtts_of r.0 ≡ some (packet.timestamp - sent_time_of p) ∷ [])
unfolding push_group from_acked rtts_of flatten_tcp no_burst
ack_single packet segment s seq p an covers later =
    let pkt = DataPacket.from_packet packet in
    let at : sent_time_of (kept_ack s pkt) ≡ packet.timestamp =
      sent_time-modify (gap_since s.last_ack (sent_time_of pkt)) pkt
      ∙ timestamp-from_packet packet in
    let acking = record s { last_ack = some (sent_time_of pkt) } in
    let taken =
      take_one s seq p segment pkt an
      ∙ release_one acking segment.acknowledgment seq (kept_ack s pkt) p covers (rw at later) in
    (
      _,
      transport_open packet segment s seq p ∙ ap (finish packet) taken,
      (
        refl,
        refl,
        rw (rtt-stamp (kept_ack s pkt) p (sent_time_of (kept_ack s pkt) - sent_time_of p), at) refl,
      ),
    )

tracked-timestamp : (packet : ParsedPacket) → sent_time_of (tracked_form packet) ≡ packet.timestamp
unfolding DataPacket.from_packet DataPacket.from_parsed
tracked-timestamp packet = by_direction packet.direction
  where
    by_direction :
        (d : Direction)
        → sent_time_of (
            modify (set_gap_last_sent none) (elim d [
              | incoming ↦ received (DataPacket.from_parsed packet)
              | outgoing ↦ sent (DataPacket.from_parsed packet)
            ]))
          ≡ packet.timestamp
    by_direction incoming = refl
    by_direction outgoing = refl

tracked-payload_len :
    (packet : ParsedPacket) (segment : TcpSegment)
    → packet.transport ≡ tcp segment
    → payload_len_of (tracked_form packet) ≡ segment.payload_len
unfolding DataPacket.from_packet DataPacket.from_parsed
tracked-payload_len packet segment t = by_direction packet.direction
  where
    by_direction :
        (d : Direction)
        → payload_len_of (
            modify (set_gap_last_sent none) (elim d [
              | incoming ↦ received (DataPacket.from_parsed packet)
              | outgoing ↦ sent (DataPacket.from_parsed packet)
            ]))
          ≡ segment.payload_len
    by_direction incoming = rw t refl
    by_direction outgoing = rw t refl

covered_form :
    (packet : ParsedPacket) (segment ack_segment : TcpSegment)
    → packet.transport ≡ tcp segment
    → seq_less_equal (u32 (segment.sequence + segment.payload_len)) ack_segment.acknowledgment
      ≡ true
    → is_covered ack_segment.acknowledgment segment.sequence (tracked_form packet) ≡ true
covered_form packet segment ack_segment t covers = rw (tracked-payload_len packet segment t) covers

-- On a stream that is new, a segment and then a pure ack that covers it leave nothing tracked and one
-- packet in the current burst, and the round trip that is recorded for it is the time from the segment
-- to the ack.
pub register_packet-rtt :
    (data_packet ack_packet : ParsedPacket) (segment ack_segment : TcpSegment)
    → data_packet.transport ≡ tcp segment
    → ack_packet.transport ≡ tcp ack_segment
    → (is_ack segment.flags && segment.payload_len == 0) ≡ false
    → (is_ack ack_segment.flags && ack_segment.payload_len == 0) ≡ true
    → seq_less_equal (u32 (segment.sequence + segment.payload_len)) ack_segment.acknowledgment
      ≡ true
    → data_packet.timestamp ≤ ack_packet.timestamp
    → Returns (register_packet new data_packet >>= λ r. register_packet r.0 ack_packet) λ r.
      (r.1 ≡ none)
      × (r.0.packets ≡ [])
      × (rtts_of r.0 ≡ some (ack_packet.timestamp - data_packet.timestamp) ∷ [])
unfolding register_packet
register_packet-rtt data_packet ack_packet segment ack_segment dt at dn an covers later =
    let p = tracked_form data_packet in
    let sent_at : sent_time_of p ≡ data_packet.timestamp = tracked-timestamp data_packet in
    let begun =
      subst (λ x. register_transport new data_packet x ≡ ok (waiting data_packet segment, none))
        (sym dt) (first_packet data_packet segment dn) in
    let (r, run, (held, gone, rtt)) =
      ack_single ack_packet ack_segment (waiting data_packet segment) segment.sequence p an
        (covered_form data_packet segment ack_segment dt covers) (rw sent_at later) in
    (
      r,
      rw begun (
          subst (λ x. register_transport (waiting data_packet segment) ack_packet x ≡ ok r) (sym at)
            run),
      (held, gone, rtt ∙ ap (λ t. some (ack_packet.timestamp - t) ∷ []) sent_at),
    )
