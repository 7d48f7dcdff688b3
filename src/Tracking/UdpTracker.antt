-- ===== src/Tracking/UdpTracker.antt =====
-- src/listener/tracking/udp_tracker.rs
use network_listener.Prelude.{
  ℕ, Bool, true, false, ◌||◌, Option, none, some, List, [], ◌∷◌, ◌++◌, length, is_empty, ltb, ◌==◌,
  if◌then◌else◌, SystemTime, Duration, unix_epoch, from_secs, duration_since,
}
use network_listener.Packet.Direction.{Direction, incoming, outgoing}
use network_listener.Packet.Parsed.{ParsedPacket}
use network_listener.Packet.DataPacket
use network_listener.Packet.DataPacket.{PacketType}
use network_listener.Tracking.Burst.{Burst}
pub mod Rolling

-- `procfs::net::UdpState`
pub data UdpState : Type 0 where
  established close : UdpState

pub record UdpTracker : Type 0 where
  pub state : Option UdpState
  pub burst_in : List PacketType
  pub burst_out : List PacketType
  pub last_in : SystemTime
  pub last_out : SystemTime

unfoldable pub new : UdpTracker
new = record {
  state = some established;
  burst_in = [];
  burst_out = [];
  last_in = unix_epoch;
  last_out = unix_epoch;
}

-- does the burst end before a packet that comes `gap` after the last one?
abbrev is_over : List PacketType → Option Duration → Bool
is_over burst none = false
is_over burst (some dur) = ltb (from_secs 1) dur || length burst == 100

-- the burst that is handed out, and the one that goes on, with the new packet
unfoldable pub roll :
    List PacketType → SystemTime → ParsedPacket → List PacketType × List PacketType
roll burst latest packet =
    let pkt = DataPacket.from_packet packet in
    if is_over burst (duration_since packet.timestamp latest)
    then (burst, pkt ∷ [])
    else ([], burst ++ pkt ∷ [])

unfoldable pub hand_out : List PacketType → Direction → Option (Burst × Direction)
hand_out ret direction = if is_empty ret then none else some (Burst.udp ret, direction)

unfoldable pub register :
    Direction → UdpTracker → ParsedPacket → UdpTracker × Option (Burst × Direction)
unfolding roll hand_out
register incoming t packet =
    let (ret, burst) = roll t.burst_in t.last_in packet in
    (record t { burst_in = burst; last_in = packet.timestamp }, hand_out ret incoming)
register outgoing t packet =
    let (ret, burst) = roll t.burst_out t.last_out packet in
    (record t { burst_out = burst; last_out = packet.timestamp }, hand_out ret outgoing)

unfoldable pub register_packet : UdpTracker → ParsedPacket → UdpTracker × Option (Burst × Direction)
unfolding register
register_packet t packet = register packet.direction t packet

-- the incoming and the outgoing burst, in this order
unfoldable pub take_bursts : UdpTracker → (Burst × Burst) × UdpTracker
take_bursts t =
    ((Burst.udp t.burst_in, Burst.udp t.burst_out), record t { burst_in = []; burst_out = [] })
