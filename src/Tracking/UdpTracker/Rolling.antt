-- ===== src/Tracking/UdpTracker/Rolling.antt =====
-- What the bursts of a UDP flow hold, and how long they get.
use network_listener.Prelude.{
  ◌+◌, ◌≤◌, ◌<◌, ◌≡◌, refl, Option, none, some, List, [], ◌∷◌, ◌++◌, length, length-append, arith,
  SystemTime, from_secs,
}
use network_listener.Packet.Direction.{Direction, incoming, outgoing}
use network_listener.Packet.Parsed.{ParsedPacket}
use network_listener.Packet.DataPacket
use network_listener.Packet.DataPacket.{PacketType, sent, received}
use network_listener.Tracking.Burst.{Burst, flatten}
use network_listener.Tracking.UdpTracker.{UdpTracker, roll, hand_out, register, register_packet}

-- the burst and the time of the last packet of a direction
abbrev pub burst_of : UdpTracker → Direction → List PacketType
burst_of t incoming = t.burst_in
burst_of t outgoing = t.burst_out

abbrev pub last_of : UdpTracker → Direction → SystemTime
last_of t incoming = t.last_in
last_of t outgoing = t.last_out

abbrev pub handed : Option (Burst × Direction) → List PacketType
handed none = []
handed (some (b, d)) = flatten b

roll-append :
    (burst : List PacketType) (latest : SystemTime) (packet : ParsedPacket)
    → let (ret, next) = roll burst latest packet in
      ret ++ next ≡ burst ++ DataPacket.from_packet packet ∷ []
unfolding roll
roll-append burst latest packet = ground arith

handed-hand_out : (ret : List PacketType) (d : Direction) → handed (hand_out ret d) ≡ ret
unfolding hand_out flatten
handed-hand_out [] d = refl
handed-hand_out (p ∷ ps) d = refl

roll-length :
    (burst : List PacketType) (latest : SystemTime) (packet : ParsedPacket)
    → latest ≤ packet.timestamp
    → length burst ≤ 100
    → length (roll burst latest packet).1 ≤ 100
unfolding roll
roll-length burst latest packet h l =
    ground (arith, length-append burst (DataPacket.from_packet packet ∷ []))

roll-overgrown :
    (burst : List PacketType) (latest : SystemTime) (packet : ParsedPacket)
    → 100 < length burst
    → packet.timestamp ≤ latest + from_secs 1
    → ((roll burst latest packet).0 ≡ []) × (length (roll burst latest packet).1 ≡ length burst + 1)
unfolding roll
roll-overgrown burst latest packet h l =
    ground (arith, length-append burst (DataPacket.from_packet packet ∷ []))

hand_out-nil : (d : Direction) → hand_out [] d ≡ none
unfolding hand_out
hand_out-nil d = refl

-- A packet is appended to the burst of its direction: what was handed out and what is kept, one
-- behind the other, are the old burst and the new packet.
pub register_packet-append :
    (t : UdpTracker) (packet : ParsedPacket)
    → let (t', ret) = register_packet t packet in
      let d = packet.direction in
      (handed ret ++ burst_of t' d ≡ burst_of t d ++ DataPacket.from_packet packet ∷ [])
      × (last_of t' d ≡ packet.timestamp)
unfolding register_packet flatten
register_packet-append t packet = appended packet.direction
  where
    appended :
        (d : Direction)
        → let (t', ret) = register d t packet in
          (handed ret ++ burst_of t' d ≡ burst_of t d ++ DataPacket.from_packet packet ∷ [])
          × (last_of t' d ≡ packet.timestamp)
    appended incoming = (rw handed-hand_out (roll-append t.burst_in t.last_in packet), refl)
    appended outgoing = (rw handed-hand_out (roll-append t.burst_out t.last_out packet), refl)

-- A packet that comes no earlier than the last one of its direction leaves a burst of at most 100
-- packets at most 100 long.
pub register_packet_capped :
    (t : UdpTracker) (packet : ParsedPacket)
    → last_of t packet.direction ≤ packet.timestamp
    → length (burst_of t packet.direction) ≤ 100
    → length (burst_of (register_packet t packet).0 packet.direction) ≤ 100
unfolding register_packet
register_packet_capped t packet = bounded packet.direction
  where
    bounded :
        (d : Direction)
        → last_of t d ≤ packet.timestamp
        → length (burst_of t d) ≤ 100
        → length (burst_of (register d t packet).0 d) ≤ 100
    bounded incoming h l = roll-length t.burst_in t.last_in packet h l
    bounded outgoing h l = roll-length t.burst_out t.last_out packet h l

-- A packet that comes within a second of the last one of its direction, to a burst that has grown
-- past 100, makes it longer by one, and nothing is handed out.
pub register_packet_overgrown :
    (t : UdpTracker) (packet : ParsedPacket)
    → 100 < length (burst_of t packet.direction)
    → packet.timestamp ≤ last_of t packet.direction + from_secs 1
    → ((register_packet t packet).1 ≡ none)
      × (length (burst_of (register_packet t packet).0 packet.direction)
          ≡ length (burst_of t packet.direction) + 1)
unfolding register_packet
register_packet_overgrown t packet = overgrown packet.direction
  where
    overgrown :
        (d : Direction)
        → 100 < length (burst_of t d)
        → packet.timestamp ≤ last_of t d + from_secs 1
        → ((register d t packet).1 ≡ none)
          × (length (burst_of (register d t packet).0 d) ≡ length (burst_of t d) + 1)
    overgrown incoming h l =
        ground (arith, roll-overgrown t.burst_in t.last_in packet, hand_out-nil incoming)
    overgrown outgoing h l =
        ground (arith, roll-overgrown t.burst_out t.last_out packet, hand_out-nil outgoing)
