-- ===== src/Packet/DataPacket.antt =====
-- src/listener/packet/data_packet.rs
use network_listener.Prelude.{ℕ, Option, none, some, Bool, leb, SystemTime, Duration, unix_epoch}
use network_listener.Prelude.Double.{Double}
use network_listener.Packet.Direction.{Direction, incoming, outgoing}
use network_listener.Packet.Transport.{TransportPacket, tcp, udp}
use network_listener.Packet.Parsed.{ParsedPacket}

pub record DataPacket : Type 0 where
  pub payload_len : ℕ
  pub total_length : ℕ
  pub sent_time : SystemTime
  pub ack_time : Option SystemTime
  pub gap_last_ack : Option Duration
  pub gap_last_sent : Option Duration
  pub retransmissions : ℕ
  pub rtt : Option Duration

abbrev payload_of : TransportPacket → ℕ
payload_of (tcp s) = s.payload_len
payload_of (udp d) = d.payload_len
payload_of _ = 0

unfoldable pub from_parsed : ParsedPacket → DataPacket
from_parsed packet = record {
  payload_len = payload_of packet.transport;
  total_length = packet.total_length;
  sent_time = packet.timestamp;
  ack_time = none;
  gap_last_ack = none;
  gap_last_sent = none;
  retransmissions = 0;
  rtt = none;
}

unfoldable pub empty : DataPacket
empty = record {
  payload_len = 0;
  total_length = 0;
  sent_time = unix_epoch;
  ack_time = none;
  gap_last_ack = none;
  gap_last_sent = none;
  retransmissions = 0;
  rtt = none;
}

-- `cmp_by_sent_time`, as the test that the sorts make
abbrev sent_no_later : DataPacket → DataPacket → Bool
sent_no_later a b = leb a.sent_time b.sent_time

gaps_in_secs :
    {F : Type 0} ⦃f : Double F⦄
    → Option Duration
    → Option Duration
    → Option SystemTime
    → Option (F × F × SystemTime)
gaps_in_secs ⦃f⦄ (some gin) (some gout) (some ack_time) =
    some (f.as_secs gin, f.as_secs gout, ack_time)
gaps_in_secs _ _ _ = none

unfoldable get_gin_gout : {F : Type 0} ⦃f : Double F⦄ → DataPacket → Option (F × F × SystemTime)
unfolding gaps_in_secs
get_gin_gout p = gaps_in_secs p.gap_last_sent p.gap_last_ack p.ack_time

pub data PacketType : Type 0 where
  sent received : DataPacket → PacketType

unfoldable pub from_packet : ParsedPacket → PacketType
from_packet packet = elim packet.direction [
  | incoming ↦ received (from_parsed packet)
  | outgoing ↦ sent (from_parsed packet)
]

unfoldable pub direction : PacketType → Direction
direction (sent p) = outgoing
direction (received p) = incoming

-- `deref`
abbrev pub deref : PacketType → DataPacket
deref (sent p) = p
deref (received p) = p

-- a write through `deref_mut`
abbrev pub modify : (DataPacket → DataPacket) → PacketType → PacketType
modify f (sent p) = sent (f p)
modify f (received p) = received (f p)
