-- ===== src/Tracking/Burst/Measures.antt =====
-- Sizes and durations of bursts.
use network_listener.Prelude.{
  duration_since, ◌++◌, ◌<◌, ◌≡◌, refl, max, Option, none, some, List, ok, Duration, [], ◌∷◌,
  length, first, last, last-some, first-some, sum_by, sum_by-append, All, Returns, arith, u32,
  SystemTime,
}
use network_listener.Packet.DataPacket.{PacketType}
use network_listener.Tracking.Burst.{
  Acked, TcpBurst, Burst, total_length_of, sent_time_of, from_acked, flatten_groups, flatten_tcp,
  flatten, tcp_total_length, burst_size_bytes, tcp_time_duration, burst_span, span, time_span,
  get_time_duration, group,
}

-- the time of the latest packet
abbrev pub latest_of : List PacketType → SystemTime
latest_of [] = 0
latest_of (p ∷ rest) = max (sent_time_of p) (latest_of rest)

time_span_lem :
    (packets : List PacketType) (latest : SystemTime)
    → time_span 0 latest packets ≡ (0, max latest (latest_of packets))
unfolding time_span
time_span_lem [] latest = ground arith
time_span_lem (p ∷ rest) latest =
    ground (arith, time_span_lem rest latest, time_span_lem rest (sent_time_of p))

-- For two packets or more, the duration of a burst that is not TCP is the age of the latest packet
-- since the epoch.
pub get_time_duration-latest :
    (p q : PacketType) (rest : List PacketType)
    → get_time_duration (p ∷ q ∷ rest) ≡ some (latest_of (p ∷ q ∷ rest))
unfolding get_time_duration
get_time_duration-latest p q rest = ground (arith, time_span_lem (p ∷ q ∷ rest) 0)

-- a group as `from_acked` makes it
pub record IsGroup (a : Acked) : Type 0 where
  pub some_packet : 0 < length a.acked_packets
  pub length_kept : a.total_length ≡ u32 (sum_by total_length_of a.acked_packets)

group-IsGroup :
    (packets : List PacketType) (ack_time : SystemTime) (first_sent : Option SystemTime)
    (latest : Option PacketType) (p : PacketType)
    → 0 < length packets
    → latest ≡ some p
    → Returns
        (group packets ack_time first_sent latest)
        λ a. IsGroup a × (a.acked_packets ≡ packets) × (a.ack_time ≡ ack_time)
unfolding group
group-IsGroup packets ack_time first_sent none p h e = cc
group-IsGroup packets ack_time first_sent (some q) p h e =
    (_, refl, (record { some_packet = h; length_kept = refl }, refl, refl))

pub from_acked-IsGroup :
    (packets : List PacketType) (ack_time : SystemTime) (first_sent : Option SystemTime)
    → 0 < length packets
    → Returns
        (from_acked packets ack_time first_sent)
        λ a. IsGroup a × (a.acked_packets ≡ packets) × (a.ack_time ≡ ack_time)
unfolding from_acked
from_acked-IsGroup packets ack_time first_sent h =
    let (p, e) = last-some packets h in
    group-IsGroup packets ack_time first_sent (last packets) p h e

flatten_groups-total :
    (groups : List Acked)
    → All IsGroup groups
    → u32 (sum_by (λ (a : Acked). a.total_length) groups)
      ≡ u32 (sum_by total_length_of (flatten_groups groups))
unfolding flatten_groups
flatten_groups-total [] h = refl
flatten_groups-total (a ∷ rest) h = omega (
  arith,
  flatten_groups-total rest h.1,
  sum_by-append total_length_of a.acked_packets (flatten_groups rest),
  h.0.length_kept,
)

-- the time from a first packet to the last ack
abbrev pub time_between : Option PacketType → Option Acked → Option Duration
time_between (some p) (some a) = duration_since a.ack_time (sent_time_of p)
time_between _ _ = none

span-time_between :
    (p : Option PacketType) (latest : Option Acked) (q : PacketType) (a : Acked)
    → p ≡ some q
    → latest ≡ some a
    → span p latest ≡ ok (time_between p latest)
unfolding span
span-time_between (some p) (some latest) q a e l = refl
span-time_between none _ q a e l = cc
span-time_between (some p) none q a e l = cc

first-append : (xs ys : List PacketType) → 0 < length xs → first (xs ++ ys) ≡ first xs
first-append [] ys h = elim h [ ]
first-append (x ∷ xs) ys h = refl

-- On a burst of whole groups, the empty one included, the duration is computed without a panic, and
-- is the time from the first of all its packets to the last ack.
pub tcp_time_duration_total :
    (burst : TcpBurst)
    → All IsGroup burst.packets
    → tcp_time_duration burst ≡ ok (time_between (first (flatten_tcp burst)) (last burst.packets))
unfolding tcp_time_duration burst_span flatten_tcp flatten_groups
tcp_time_duration_total burst h = time_total burst.packets h
  where
    time_total :
        (groups : List Acked)
        → All IsGroup groups
        → burst_span (first groups) (last groups)
          ≡ ok (time_between (first (flatten_groups groups)) (last groups))
    time_total [] h = refl
    time_total (a ∷ rest) h =
        let (p, e) = first-some a.acked_packets h.0.some_packet in
        let (latest, l) = last-some (a ∷ rest) (omega arith) in
        rw (first-append a.acked_packets (flatten_groups rest) h.0.some_packet)
          (span-time_between (first a.acked_packets) (last (a ∷ rest)) p latest e l)

-- The byte count of a TCP burst of whole groups is that of its packets taken together, modulo the
-- width of the counter.
pub burst_size_bytes-flatten :
    (burst : TcpBurst)
    → All IsGroup burst.packets
    → burst_size_bytes (Burst.tcp burst) ≡ u32 (sum_by total_length_of (flatten (Burst.tcp burst)))
unfolding burst_size_bytes flatten flatten_tcp tcp_total_length
burst_size_bytes-flatten burst h = flatten_groups-total burst.packets h
