-- ===== src/Tracking/TcpStream/Closing.antt =====
-- When `TcpStream::register_packet` closes a burst, and how long a burst can grow.
use network_listener.Prelude.{
  >>=-eq-ok, subst, ◌+◌, ◌≤◌, ◌<◌, ◌≡◌, ap, Option, none, some, List, [], ◌∷◌, ◌++◌, length, last,
  length-append, ok, arith, SystemTime, ◌>>=◌, Run, panic, ◌⊎◌,
}
use network_listener.Packet.Transport.{TransportPacket, tcp, TcpSegment}
use network_listener.Packet.Parsed.{ParsedPacket}
use network_listener.Packet.DataPacket
use network_listener.Packet.DataPacket.{PacketType}
use network_listener.Tracking.Burst.{Acked, TcpBurst, from_acked, no_burst}
use network_listener.Tracking.TcpStream.{
  TcpStream, gap_ends_burst, burst_is_over, close_burst, take_segment, push_group, prev_last_sent,
  register_transport, register_packet,
}
use network_listener.Tracking.TcpStream.Registering.{
  IsWellFormed, close_burst_lem, take_segment-Takes,
}

-- the last packet was no later than `t`; before the first one there is no group
abbrev IsTimely : Option SystemTime → List Acked → SystemTime → Type 0
IsTimely none groups t = groups ≡ []
IsTimely (some last_registered) groups t = last_registered ≤ t

close_burst-length :
    (s : TcpStream) (t : SystemTime)
    → IsTimely s.last_registered s.cur_burst.packets t
    → length (close_burst s t).1.cur_burst.packets ≤ 100
unfolding close_burst burst_is_over gap_ends_burst no_burst
close_burst-length s t timely = ground arith

push_group-length :
    (s : TcpStream) (acked : List PacketType) (t : SystemTime) {s' : TcpStream}
    → push_group s acked t ≡ ok s'
    → length s'.cur_burst.packets ≤ length s.cur_burst.packets + 1
unfolding push_group
push_group-length s [] t e = ground arith
push_group-length s (p ∷ ps) t e =
    pushed (from_acked (p ∷ ps) t (prev_last_sent (last s.cur_burst.packets))) e
  where
    pushed :
        (group : Run Acked) {s' : TcpStream}
        → (group >>= λ g.
            ok (record s { cur_burst = record { packets = s.cur_burst.packets ++ g ∷ [] } }))
          ≡ ok s'
        → length s'.cur_burst.packets ≤ length s.cur_burst.packets + 1
    pushed (ok g) e = ground (arith, length-append s.cur_burst.packets (g ∷ []))
    pushed panic e = cc

-- the parts of a registration that does not panic
register_transport-parts :
    (s : TcpStream) (packet : ParsedPacket) (segment : TcpSegment) (x : TransportPacket)
    {r : TcpStream × Option TcpBurst}
    → x ≡ tcp segment
    → register_transport s packet x ≡ ok r
    → let closed = close_burst s packet.timestamp in
      let taken = take_segment closed.1 segment (DataPacket.from_packet packet) in
      (pushed : TcpStream) × (push_group taken.1 taken.0 packet.timestamp ≡ ok pushed)
      × (r.0.cur_burst ≡ pushed.cur_burst)
      × (r.1 ≡ closed.0)
unfolding register_transport
register_transport-parts s packet segment x {r} t e =
    let closed = close_burst s packet.timestamp in
    let taken = take_segment closed.1 segment (DataPacket.from_packet packet) in
    let (pushed, run, rest) =
      >>=-eq-ok (push_group taken.1 taken.0 packet.timestamp) _
        (subst (λ y. register_transport s packet y ≡ ok r) t e) in
    (pushed, run, cc, cc)

-- A segment registered on a well-formed stream no earlier than the last packet, or on a stream with
-- no last packet and no current burst, leaves at most 101 groups in the current burst.
pub register_packet_bounded :
    (s : TcpStream) (packet : ParsedPacket) (segment : TcpSegment) {r : TcpStream × Option TcpBurst}
    → IsWellFormed s
    → IsTimely s.last_registered s.cur_burst.packets packet.timestamp
    → packet.transport ≡ tcp segment
    → register_packet s packet ≡ ok r
    → length r.0.cur_burst.packets ≤ 101
unfolding register_packet
register_packet_bounded s packet segment {r} w timely t e =
    let closed = close_burst s packet.timestamp in
    let pkt = DataPacket.from_packet packet in
    let taken = take_segment closed.1 segment pkt in
    let same =
      (take_segment-Takes closed.1 segment pkt (close_burst_lem s packet.timestamp w).0).2 in
    let (pushed, run, burst, _) = register_transport-parts s packet segment packet.transport t e in
    let groups = λ (b : TcpBurst). length b.packets in
    omega (
      arith,
      close_burst-length s packet.timestamp timely,
      push_group-length taken.1 taken.0 packet.timestamp run,
      ap groups same,
      ap groups burst,
    )

close_burst-cases :
    (s : TcpStream) (t before : SystemTime)
    → s.last_registered ≡ some before
    → before ≤ t
    → let groups = length s.cur_burst.packets in
      let late = s.max_rtt + before < t in
      (((close_burst s t).0 ≡ some s.cur_burst) × (0 < groups) × (late ⊎ (100 < groups)))
      ⊎ (((close_burst s t).0 ≡ none)
          × ((groups ≡ 0) ⊎ ((t ≤ s.max_rtt + before) × (groups ≤ 100))))
unfolding close_burst burst_is_over gap_ends_burst
close_burst-cases s t before b h = ground arith

-- When a segment comes no earlier than the last registered packet, the whole current burst is
-- handed out exactly if it is not empty and either more than the longest round trip has gone by
-- since that packet or there are more than 100 groups; otherwise nothing is.
pub register_packet-hands_out :
    (s : TcpStream) (packet : ParsedPacket) (segment : TcpSegment) (before : SystemTime)
    {r : TcpStream × Option TcpBurst}
    → packet.transport ≡ tcp segment
    → s.last_registered ≡ some before
    → before ≤ packet.timestamp
    → register_packet s packet ≡ ok r
    → let groups = length s.cur_burst.packets in
      let late = s.max_rtt + before < packet.timestamp in
      ((r.1 ≡ some s.cur_burst) × (0 < groups) × (late ⊎ (100 < groups)))
      ⊎ ((r.1 ≡ none) × ((groups ≡ 0) ⊎ ((packet.timestamp ≤ s.max_rtt + before) × (groups ≤ 100))))
unfolding register_packet
register_packet-hands_out s packet segment before t b h e =
    let (_, _, _, ret) = register_transport-parts s packet segment packet.transport t e in
    rw ret (close_burst-cases s packet.timestamp before b h)
