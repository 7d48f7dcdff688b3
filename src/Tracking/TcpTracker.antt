-- ===== src/Tracking/TcpTracker.antt =====
-- src/listener/tracking/tcp_tracker.rs: both directions of a TCP connection.
use network_listener.Prelude.{Option, none, some, Run, ok, ◌>>=◌, if◌then◌else◌}
use network_listener.Packet.Direction.{Direction, incoming, outgoing}
use network_listener.Packet.Parsed.{ParsedPacket, is_pure_ack}
use network_listener.Tracking.Burst.{TcpBurst, Burst, no_burst}
use network_listener.Tracking.TcpStream
use network_listener.Tracking.TcpStream.{TcpStream}
pub mod Routing

pub record TcpTracker : Type 0 where
  pub sent : TcpStream
  pub received : TcpStream

unfoldable pub new : TcpTracker
new = record { sent = TcpStream.new; received = TcpStream.new }

-- `std::mem::take` of the burst of a stream
unfoldable pub without_burst : TcpStream → TcpStream
without_burst s = record s { cur_burst = no_burst }

-- the bursts of the sent and of the received side, in this order
unfoldable pub take_bursts : TcpTracker → (Burst × Burst) × TcpTracker
take_bursts t = (
  (Burst.tcp t.sent.cur_burst, Burst.tcp t.received.cur_burst),
  record { sent = without_burst t.sent; received = without_burst t.received },
)

wrap : Option TcpBurst → Direction → Option (Burst × Direction)
wrap none direction = none
wrap (some burst) direction = some (Burst.tcp burst, direction)

register_sent : TcpTracker → ParsedPacket → Run (TcpTracker × Option (Burst × Direction))
unfolding wrap
register_sent t packet = do
  (stream, burst) ← TcpStream.register_packet t.sent packet
  ok (record t { sent = stream }, wrap burst outgoing)

register_received : TcpTracker → ParsedPacket → Run (TcpTracker × Option (Burst × Direction))
unfolding wrap
register_received t packet = do
  (stream, burst) ← TcpStream.register_packet t.received packet
  ok (record t { received = stream }, wrap burst incoming)

route : Direction → TcpTracker → ParsedPacket → Run (TcpTracker × Option (Burst × Direction))
unfolding register_sent register_received
route incoming t packet =
    if is_pure_ack packet then register_sent t packet else register_received t packet
route outgoing t packet =
    if is_pure_ack packet then register_received t packet else register_sent t packet

unfoldable pub register_packet :
    TcpTracker → ParsedPacket → Run (TcpTracker × Option (Burst × Direction))
unfolding route
register_packet t packet = route packet.direction t packet
