-- ===== src/Tracking/GenericTracker.antt =====
-- src/listener/tracking/generic_tracker.rs. The body of `register_packet` is that of `UdpTracker`,
-- and hands out `Burst::Udp` as well.
use network_listener.Prelude.{Option, List, [], SystemTime, unix_epoch}
use network_listener.Packet.Direction.{Direction, incoming, outgoing}
use network_listener.Packet.Transport.{Protocol}
use network_listener.Packet.Parsed.{ParsedPacket}
use network_listener.Packet.DataPacket.{PacketType}
use network_listener.Tracking.Burst.{Burst}
use network_listener.Tracking.UdpTracker.{roll, hand_out}

pub record GenericTracker : Type 0 where
  pub protocol : Protocol
  pub burst_in : List PacketType
  pub burst_out : List PacketType
  pub last_in : SystemTime
  pub last_out : SystemTime

unfoldable pub new : Protocol → GenericTracker
new protocol = record {
  protocol = protocol;
  burst_in = [];
  burst_out = [];
  last_in = unix_epoch;
  last_out = unix_epoch;
}

unfoldable pub register :
    Direction → GenericTracker → ParsedPacket → GenericTracker × Option (Burst × Direction)
unfolding roll hand_out
register incoming t packet =
    let (ret, burst) = roll t.burst_in t.last_in packet in
    (record t { burst_in = burst; last_in = packet.timestamp }, hand_out ret incoming)
register outgoing t packet =
    let (ret, burst) = roll t.burst_out t.last_out packet in
    (record t { burst_out = burst; last_out = packet.timestamp }, hand_out ret outgoing)

unfoldable pub register_packet :
    GenericTracker → ParsedPacket → GenericTracker × Option (Burst × Direction)
unfolding register
register_packet t packet = register packet.direction t packet

unfoldable pub take_bursts : GenericTracker → (Burst × Burst) × GenericTracker
take_bursts t =
    ((Burst.other t.burst_in, Burst.other t.burst_out), record t { burst_in = []; burst_out = [] })
