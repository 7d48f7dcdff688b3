-- ===== src/Tracking/TcpTracker/Routing.antt =====
-- Which side of a connection a packet goes to.
use network_listener.Prelude.{◌≡◌, refl, Bool, true, false, Option, none, some, Returns}
use network_listener.Packet.Direction.{Direction, incoming, outgoing}
use network_listener.Packet.Parsed.{ParsedPacket, is_pure_ack}
use network_listener.Tracking.Burst.{TcpBurst, Burst}
use network_listener.Tracking.TcpStream.{TcpStream}
use network_listener.Tracking.TcpStream.Registering.{
  IsWellFormed, IsWhole, register_packet_total, new-IsWellFormed,
}
use network_listener.Tracking.TcpTracker.{
  TcpTracker, new, wrap, register_sent, register_received, route, register_packet,
}

pub record IsValid (t : TcpTracker) : Type 0 where
  pub sent_valid : IsWellFormed t.sent
  pub received_valid : IsWellFormed t.received

abbrev pub IsWholeBurst : Option (Burst × Direction) → Type 0
IsWholeBurst none = Unit
IsWholeBurst (some (Burst.tcp burst, d)) = IsWhole (some burst)
IsWholeBurst (some (_, d)) = Unit

pub new-IsValid : IsValid new
unfolding new
new-IsValid = record { sent_valid = new-IsWellFormed; received_valid = new-IsWellFormed }

-- the direction of the data that a packet belongs to
abbrev pub data_direction : Direction → Bool → Direction
data_direction incoming true = outgoing
data_direction incoming false = incoming
data_direction outgoing true = incoming
data_direction outgoing false = outgoing

abbrev side : TcpTracker → Direction → TcpStream
side t outgoing = t.sent
side t incoming = t.received

abbrev opposite : Direction → Direction
opposite incoming = outgoing
opposite outgoing = incoming

abbrev HasDirection : Option (Burst × Direction) → Direction → Type 0
HasDirection none d = Unit
HasDirection (some (b, d')) d = d' ≡ d

-- what registering a packet of data direction `d` does
abbrev pub Routes :
    TcpTracker → ParsedPacket → Direction → TcpTracker × Option (Burst × Direction) → Type 0
Routes t packet d r =
    IsValid r.0
    × IsWholeBurst r.1
    × HasDirection r.1 d
    × (side r.0 (opposite d) ≡ side t (opposite d))
    × ((side r.0 d).last_registered ≡ some packet.timestamp)

wrap-IsWhole :
    (burst : Option TcpBurst) (d : Direction)
    → IsWhole burst
    → IsWholeBurst (wrap burst d) × HasDirection (wrap burst d) d
unfolding wrap
wrap-IsWhole none d w = (tt, tt)
wrap-IsWhole (some b) d w = (w, refl)

register_sent-Routes :
    (t : TcpTracker) (packet : ParsedPacket)
    → IsValid t
    → Returns (register_sent t packet) (Routes t packet outgoing)
unfolding register_sent
register_sent-Routes t packet v =
    let (r, run, (w, whole, _, stamped)) = register_packet_total t.sent packet v.sent_valid in
    let (wrapped, directed) = wrap-IsWhole r.1 outgoing whole in
    (
      (record t { sent = r.0 }, wrap r.1 outgoing),
      rw run,
      (
        record { sent_valid = w; received_valid = v.received_valid },
        wrapped,
        directed,
        refl,
        stamped,
      ),
    )

register_received-Routes :
    (t : TcpTracker) (packet : ParsedPacket)
    → IsValid t
    → Returns (register_received t packet) (Routes t packet incoming)
unfolding register_received
register_received-Routes t packet v =
    let (r, run, (w, whole, _, stamped)) =
      register_packet_total t.received packet v.received_valid in
    let (wrapped, directed) = wrap-IsWhole r.1 incoming whole in
    (
      (record t { received = r.0 }, wrap r.1 incoming),
      rw run,
      (record { sent_valid = v.sent_valid; received_valid = w }, wrapped, directed, refl, stamped),
    )

-- Registering a packet on a connection with two well-formed sides never panics. A pure ack goes to
-- the side of the data that it acknowledges, any other packet to its own side; the other side is
-- left alone, both stay well formed, a burst that is handed out is whole and carries the direction
-- of its data, and the side keeps the time of the packet.
pub register_packet-Routes :
    (t : TcpTracker) (packet : ParsedPacket)
    → IsValid t
    → Returns
        (register_packet t packet)
        (Routes t packet (data_direction packet.direction (is_pure_ack packet)))
unfolding register_packet
register_packet-Routes t packet v = routes packet.direction (is_pure_ack packet) refl
  where
    routes :
        (d : Direction) (b : Bool)
        → is_pure_ack packet ≡ b
        → Returns (route d t packet) (Routes t packet (data_direction d b))
    routes incoming true e = rw e (register_sent-Routes t packet v)
    routes incoming false e = rw e (register_received-Routes t packet v)
    routes outgoing true e = rw e (register_received-Routes t packet v)
    routes outgoing false e = rw e (register_sent-Routes t packet v)
