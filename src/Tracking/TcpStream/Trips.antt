-- ===== src/Tracking/TcpStream/Trips.antt =====
-- The round trips that an ack sets are within the longest one of the stream.
use network_listener.Prelude.{
  ℕ, ◌≤◌, ◌≡◌, none, Option, some, [], ◌∷◌, arith, Duration, by_key, All, sort_by-All,
}
use network_listener.Prelude.BTreeMap.{BTreeMap}
use network_listener.Packet.DataPacket.{PacketType, deref, sent, received}
use network_listener.Tracking.Burst.{sent_time_of}
use network_listener.Tracking.TcpStream.{TcpStream, update_acked_packets}
use network_listener.Tracking.TcpStream.Acking.{
  covered, stamped, stamped_values, longest, raised, round_trip, update_acked_packets_lem,
}

-- the round trip of a packet is unset
abbrev IsUnacked : ℕ × PacketType → Type 0
IsUnacked e = (deref e.1).rtt ≡ none

abbrev AtMost : Duration → Option Duration → Type 0
AtMost bound none = Unit
AtMost bound (some rtt) = rtt ≤ bound

abbrev RttWithin : Duration → PacketType → Type 0
RttWithin bound p = AtMost bound (deref p).rtt

longest-le :
    (pkt : PacketType) (max_rtt : Duration) (m : BTreeMap PacketType)
    → max_rtt ≤ longest pkt max_rtt m
longest-le pkt max_rtt [] = omega arith
longest-le pkt max_rtt ((seq, p) ∷ rest) =
    ground (arith, longest-le pkt (raised max_rtt (round_trip pkt p)) rest)

stamped-within :
    (pkt p : PacketType) (max_rtt bound : Duration)
    → (deref p).rtt ≡ none
    → raised max_rtt (round_trip pkt p) ≤ bound
    → RttWithin bound (stamped pkt p)
stamped-within pkt (sent p) max_rtt bound e h = ground arith
stamped-within pkt (received p) max_rtt bound e h = ground arith

stamped_values-within :
    (pkt : PacketType) (max_rtt bound : Duration) (m : BTreeMap PacketType)
    → All IsUnacked m
    → longest pkt max_rtt m ≤ bound
    → All (RttWithin bound) (stamped_values pkt m)
stamped_values-within pkt max_rtt bound [] u h = tt
stamped_values-within pkt max_rtt bound ((seq, p) ∷ rest) u h =
    let next = raised max_rtt (round_trip pkt p) in
    (
      stamped-within pkt p max_rtt bound u.0 (omega (arith, longest-le pkt next rest)),
      stamped_values-within pkt next bound rest u.1 h,
    )

covered-All : (ack : ℕ) (m : BTreeMap PacketType) → All IsUnacked m → All IsUnacked (covered ack m)
covered-All ack [] u = tt
covered-All ack ((seq, p) ∷ rest) u = ground (arith, covered-All ack rest)

-- While no tracked packet has a round trip yet, every round trip that an ack sets is at most the
-- stream's longest, which an ack never lowers.
update_acked_packets_rtt :
    (s : TcpStream) (ack : ℕ) (pkt : PacketType)
    → All IsUnacked s.packets
    → let (acked, s') = update_acked_packets s ack pkt in
      All (RttWithin s'.max_rtt) acked × (s.max_rtt ≤ s'.max_rtt)
update_acked_packets_rtt s ack pkt u =
    let c = covered ack s.packets in
    rw (update_acked_packets_lem s ack pkt) (
      sort_by-All (RttWithin (longest pkt s.max_rtt c)) (by_key sent_time_of) (stamped_values pkt c)
          (stamped_values-within pkt s.max_rtt _ c (covered-All ack s.packets u) (omega arith)),
      longest-le pkt s.max_rtt c,
    )
