-- ===== src/Tracking/Tracker.antt =====
-- src/listener/tracking/tracker.rs
use network_listener.Prelude.{Option, SystemTime, Run, ok, ◌>>=◌, ◌==◌, if◌then◌else◌}
use network_listener.Packet.Direction.{Direction}
use network_listener.Packet.Transport.{Protocol, tcp_protocol, udp_protocol}
use network_listener.Packet.Parsed.{ParsedPacket}
use network_listener.Tracking.Burst.{Burst}
use network_listener.Tracking.TcpTracker
use network_listener.Tracking.TcpTracker.{TcpTracker}
use network_listener.Tracking.UdpTracker
use network_listener.Tracking.UdpTracker.{UdpTracker}
use network_listener.Tracking.GenericTracker
use network_listener.Tracking.GenericTracker.{GenericTracker}
pub mod Registering

pub data TrackerState : Type 0 where
  tcp : TcpTracker → TrackerState
  udp : UdpTracker → TrackerState
  other : GenericTracker → TrackerState

unfoldable pub register_state :
    TrackerState → ParsedPacket → Run (TrackerState × Option (Burst × Direction))
register_state (tcp t) packet = do (t', ret) ← TcpTracker.register_packet t packet; ok (tcp t', ret)
register_state (udp t) packet =
    let (t', ret) = UdpTracker.register_packet t packet in ok (udp t', ret)
register_state (other t) packet =
    let (t', ret) = GenericTracker.register_packet t packet in ok (other t', ret)

-- `DefaultState::default`
unfoldable pub default : Protocol → TrackerState
default protocol =
    if protocol == tcp_protocol
    then tcp TcpTracker.new
    else if protocol == udp_protocol
    then udp UdpTracker.new
    else other (GenericTracker.new protocol)

pub record Tracker : Type 0 where
  pub last_registered : SystemTime
  pub protocol : Protocol
  pub state : TrackerState

unfoldable pub new : SystemTime → Protocol → Tracker
new timestamp protocol = record {
  last_registered = timestamp;
  protocol = protocol;
  state = default protocol;
}

unfoldable pub register_packet : Tracker → ParsedPacket → Run (Tracker × Option (Burst × Direction))
register_packet t packet = do
  (state, ret) ← register_state t.state packet
  ok (record t { last_registered = packet.timestamp; state = state }, ret)

-- the `match` on the state in `StreamManager::periodic`
unfoldable pub take_bursts : TrackerState → (Burst × Burst) × TrackerState
take_bursts (tcp t) = let (bursts, t') = TcpTracker.take_bursts t in (bursts, tcp t')
take_bursts (udp t) = let (bursts, t') = UdpTracker.take_bursts t in (bursts, udp t')
take_bursts (other t) = let (bursts, t') = GenericTracker.take_bursts t in (bursts, other t')
