-- ===== src/Tracking/TcpStream/Registering.antt =====
-- `TcpStream::register_packet`: it never panics, keeps its invariant, and neither loses nor makes up
-- packets.
use network_listener.Prelude.{
  ℕ, ◌+◌, ◌≡◌, refl, ◌&&◌, Option, none, some, List, [], ◌∷◌, ◌++◌, length, last, sum_by,
  sum_by-append, All, All-append, if◌then◌else◌, Bool-cases, inl, inr, ap, ◌==◌, Returns, arith,
  SystemTime,
}
use network_listener.Prelude.BTreeMap
use network_listener.Prelude.BTreeMap.{
  BTreeMap, IsAbove, Ascends, IsAbove-le, grows, insert-Ascends, length-insert,
}
use network_listener.Packet.Transport.{TransportPacket, tcp, TcpSegment, is_ack}
use network_listener.Packet.Parsed.{ParsedPacket}
use network_listener.Packet.DataPacket
use network_listener.Packet.DataPacket.{PacketType, modify}
use network_listener.Tracking.Burst.{sent_time_of, Acked, TcpBurst, acked_len, no_burst}
use network_listener.Tracking.Burst.Measures.{IsGroup, from_acked-IsGroup}
use network_listener.Tracking.TcpStream.{
  set_gap_last_ack, set_gap_last_sent, TcpStream, tracked, track_packet, get_gap_last_ack,
  get_gap_last_sent, update_acked_packets, close_burst, take_segment, push_group, prev_last_sent,
  register_transport, register_packet, new,
}
use network_listener.Tracking.TcpStream.Acking.{
  uncovered, update_acked_packets_lem, update_acked_packets_conserve,
}

abbrev packet_count : List Acked → ℕ
packet_count groups = sum_by acked_len groups

pub record IsWellFormed (s : TcpStream) : Type 0 where
  pub ordered : Ascends s.packets
  pub grouped : All IsGroup s.cur_burst.packets

-- the packets that a stream holds, tracked or in the current burst
abbrev pub held : TcpStream → ℕ
held s = length s.packets + packet_count s.cur_burst.packets

abbrev pub handed_out : Option TcpBurst → ℕ
handed_out none = 0
handed_out (some burst) = packet_count burst.packets

abbrev pub IsWhole : Option TcpBurst → Type 0
IsWhole none = Unit
IsWhole (some burst) = All IsGroup burst.packets

abbrev pub joins : TcpStream → TransportPacket → ℕ
joins s (tcp segment) =
    if is_ack segment.flags && segment.payload_len == 0
    then 0
    else grows (BTreeMap.get segment.sequence s.packets)
joins s _ = 0

pub new-IsWellFormed : IsWellFormed new
unfolding new no_burst
new-IsWellFormed = record { ordered = tt; grouped = tt }

uncovered-IsAbove :
    (ack lo : ℕ) (m : BTreeMap PacketType) → IsAbove lo m → IsAbove lo (uncovered ack m)
uncovered-IsAbove ack lo [] a = tt
uncovered-IsAbove ack lo ((seq, p) ∷ rest) a =
    ground (arith, uncovered-IsAbove ack seq rest, IsAbove-le lo seq (uncovered ack rest))

IsAbove-Ascends : (lo : ℕ) (m : BTreeMap PacketType) → IsAbove lo m → Ascends m
IsAbove-Ascends lo [] a = tt
IsAbove-Ascends lo ((seq, p) ∷ rest) a = a.1

uncovered-Ascends : (ack : ℕ) (m : BTreeMap PacketType) → Ascends m → Ascends (uncovered ack m)
uncovered-Ascends ack [] a = tt
uncovered-Ascends ack ((seq, p) ∷ rest) a =
    ground (arith, uncovered-IsAbove ack seq rest, IsAbove-Ascends seq (uncovered ack rest))

pub close_burst_lem :
    (s : TcpStream) (timestamp : SystemTime)
    → IsWellFormed s
    → let (ret, s') = close_burst s timestamp in
      IsWellFormed s' × IsWhole ret × (held s' + handed_out ret ≡ held s) × (s'.packets ≡ s.packets)
unfolding close_burst no_burst
close_burst_lem s timestamp w = ground arith

update_acked_packets-Ascends :
    (s : TcpStream) (ack : ℕ) (pkt : PacketType)
    → Ascends s.packets
    → Ascends (update_acked_packets s ack pkt).1.packets
update_acked_packets-Ascends s ack pkt a =
    rw (update_acked_packets_lem s ack pkt) (uncovered-Ascends ack s.packets a)

update_acked_packets-cur_burst :
    (s : TcpStream) (ack : ℕ) (pkt : PacketType)
    → (update_acked_packets s ack pkt).1.cur_burst ≡ s.cur_burst
update_acked_packets-cur_burst s ack pkt = rw (update_acked_packets_lem s ack pkt)

-- what both kinds of segment do to a stream, with `n` new packets
abbrev Takes : TcpStream → ℕ → List PacketType × TcpStream → Type 0
Takes s n r =
    IsWellFormed r.1
    × (length r.0 + length r.1.packets ≡ length s.packets + n)
    × (r.1.cur_burst ≡ s.cur_burst)

update_acked_packets-Takes :
    (s : TcpStream) (ack : ℕ) (pkt : PacketType)
    → IsWellFormed s
    → Takes s 0 (update_acked_packets s ack pkt)
update_acked_packets-Takes s ack pkt w =
    let same = update_acked_packets-cur_burst s ack pkt in
    (
      record {
        ordered = update_acked_packets-Ascends s ack pkt w.ordered;
        grouped = rw same w.grouped;
      },
      omega (arith, (update_acked_packets_conserve s ack pkt).0),
      same,
    )

track_packet-Takes :
    (s : TcpStream) (seq : ℕ) (pkt : PacketType)
    → IsWellFormed s
    → Takes s (grows (BTreeMap.get seq s.packets)) ([], track_packet s seq pkt)
unfolding track_packet
track_packet-Takes s seq pkt w =
    let entry = tracked (BTreeMap.get seq s.packets) pkt in
    (
      record { ordered = insert-Ascends seq entry s.packets w.ordered; grouped = w.grouped },
      omega (arith, length-insert seq entry s.packets w.ordered),
      refl,
    )

-- the invariant reads two fields only
IsWellFormed-parts :
    (s : TcpStream) {t : TcpStream}
    → IsWellFormed s
    → t.packets ≡ s.packets
    → t.cur_burst ≡ s.cur_burst
    → IsWellFormed t
IsWellFormed-parts s w p b = record { ordered = rw p w.ordered; grouped = rw b w.grouped }

joins_congr :
    (s t : TcpStream) (x : TransportPacket) → t.packets ≡ s.packets → joins t x ≡ joins s x
joins_congr s t (tcp segment) e = rw e
joins_congr s t _ e = refl

pub take_segment-Takes :
    (s : TcpStream) (segment : TcpSegment) (pkt : PacketType)
    → IsWellFormed s
    → Takes s (joins s (tcp segment)) (take_segment s segment pkt)
unfolding take_segment get_gap_last_ack get_gap_last_sent
take_segment-Takes s segment pkt w =
    let (ack_gap, acking) = get_gap_last_ack s (sent_time_of pkt) in
    let (sent_gap, sending) = get_gap_last_sent s (sent_time_of pkt) in
    elim (Bool-cases (is_ack segment.flags && segment.payload_len == 0)) [
      | inl acks ↦ rw acks (
          update_acked_packets-Takes acking segment.acknowledgment
            (modify (set_gap_last_ack ack_gap) pkt) (IsWellFormed-parts s w refl refl))
      | inr sends ↦ rw sends (
          track_packet-Takes sending segment.sequence (modify (set_gap_last_sent sent_gap) pkt)
            (IsWellFormed-parts s w refl refl))
    ]

push_group_lem :
    (s : TcpStream) (acked : List PacketType) (timestamp : SystemTime)
    → IsWellFormed s
    → Returns (push_group s acked timestamp) λ s'.
      IsWellFormed s'
      × (s'.packets ≡ s.packets)
      × (packet_count s'.cur_burst.packets ≡ packet_count s.cur_burst.packets + length acked)
unfolding push_group
push_group_lem s [] timestamp w = (s, refl, (w, refl, omega arith))
push_group_lem s (p ∷ ps) timestamp w =
    let earlier = prev_last_sent (last s.cur_burst.packets) in
    let (a, run, (g, same, _)) = from_acked-IsGroup (p ∷ ps) timestamp earlier (omega arith) in
    (
      record s { cur_burst = record { packets = s.cur_burst.packets ++ a ∷ [] } },
      rw run,
      (
        record {
          ordered = w.ordered;
          grouped = All-append IsGroup s.cur_burst.packets (a ∷ []) w.grouped (g, tt);
        },
        refl,
        rw (sum_by-append acked_len s.cur_burst.packets (a ∷ []), same) (omega arith),
      ),
    )

-- Registering a packet on a well-formed stream never panics. It keeps the stream well formed, hands
-- out only whole groups, and conserves packets: those that the stream holds afterwards, tracked or
-- in the current burst, and those handed out are together as many as it held before, and one more
-- for a segment whose number was not yet tracked.
pub register_packet_total :
    (s : TcpStream) (packet : ParsedPacket)
    → IsWellFormed s
    → Returns (register_packet s packet) λ r.
      IsWellFormed r.0
      × IsWhole r.1
      × (held r.0 + handed_out r.1 ≡ held s + joins s packet.transport)
      × (r.0.last_registered ≡ some packet.timestamp)
unfolding register_packet
register_packet_total s packet w = transport_total packet.transport
  where
    transport_total :
        (t : TransportPacket)
        → Returns (register_transport s packet t) λ r.
          IsWellFormed r.0
          × IsWhole r.1
          × (held r.0 + handed_out r.1 ≡ held s + joins s t)
          × (r.0.last_registered ≡ some packet.timestamp)
    transport_total (tcp segment) =
        let (closed_wf, whole, kept, same) = close_burst_lem s packet.timestamp w in
        let closed = close_burst s packet.timestamp in
        let pkt = DataPacket.from_packet packet in
        let (taken_wf, taken_count, taken_burst) =
          take_segment-Takes closed.1 segment pkt closed_wf in
        let taken = take_segment closed.1 segment pkt in
        let (pushed, run, (pushed_wf, pushed_packets, pushed_count)) =
          push_group_lem taken.1 taken.0 packet.timestamp taken_wf in
        (
          (record pushed { last_registered = some packet.timestamp }, closed.0),
          rw run,
          (
            record { ordered = pushed_wf.ordered; grouped = pushed_wf.grouped },
            whole,
            omega (
              arith,
              ap length pushed_packets,
              ap (λ (b : TcpBurst). packet_count b.packets) taken_burst,
              joins_congr s closed.1 (tcp segment) same,
            ),
            refl,
          ),
        )
    transport_total _ =
        (_, refl, (record { ordered = w.ordered; grouped = w.grouped }, tt, omega arith, refl))
