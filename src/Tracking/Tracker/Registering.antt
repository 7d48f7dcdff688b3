-- ===== src/Tracking/Tracker/Registering.antt =====
-- Registering a packet on a tracker of any protocol.
use network_listener.Prelude.{
  ◌≡◌, refl, Option, none, some, List, [], ◌∷◌, Returns, inl, inr, Bool-cases, ◌==◌,
}
use network_listener.Packet.Direction.{Direction, incoming, outgoing}
use network_listener.Packet.Transport.{Protocol, tcp_protocol, udp_protocol}
use network_listener.Packet.Parsed.{ParsedPacket}
use network_listener.Packet.DataPacket.{PacketType}
use network_listener.Tracking.Burst.{Burst}
use network_listener.Tracking.StreamId.{stream_key_hashed}
use network_listener.Tracking.TcpTracker.Routing.{
  IsValid, IsWholeBurst, new-IsValid, register_packet-Routes,
}
use network_listener.Tracking.UdpTracker
use network_listener.Tracking.UdpTracker.{roll, hand_out}
use network_listener.Tracking.GenericTracker
use network_listener.Tracking.Tracker
use network_listener.Tracking.Tracker.{Tracker, TrackerState, register_state}
use network_listener.Registry.PacketRegistry.Extending.{IsWholeTcp}

-- the TCP streams of a tracker satisfy their invariant
abbrev pub IsSound : TrackerState → Type 0
IsSound (TrackerState.tcp t) = IsValid t
IsSound (TrackerState.udp t) = Unit
IsSound (TrackerState.other t) = Unit

abbrev pub HasSoundState : Tracker → Type 0
HasSoundState t = IsSound t.state

abbrev pub IsWholeRet : Option (Burst × Direction) → Type 0
IsWholeRet none = Unit
IsWholeRet (some (burst, d)) = IsWholeTcp burst

hand_out-whole : (ret : List PacketType) (d : Direction) → IsWholeRet (hand_out ret d)
unfolding hand_out
hand_out-whole [] d = tt
hand_out-whole (p ∷ ps) d = tt

udp-whole :
    (d : Direction) (t : UdpTracker.UdpTracker) (packet : ParsedPacket)
    → IsWholeRet (UdpTracker.register d t packet).1
unfolding UdpTracker.register
udp-whole incoming t packet = hand_out-whole (roll t.burst_in t.last_in packet).0 incoming
udp-whole outgoing t packet = hand_out-whole (roll t.burst_out t.last_out packet).0 outgoing

generic-whole :
    (d : Direction) (t : GenericTracker.GenericTracker) (packet : ParsedPacket)
    → IsWholeRet (GenericTracker.register d t packet).1
unfolding GenericTracker.register
generic-whole incoming t packet = hand_out-whole (roll t.burst_in t.last_in packet).0 incoming
generic-whole outgoing t packet = hand_out-whole (roll t.burst_out t.last_out packet).0 outgoing

IsWholeBurst-ret : (ret : Option (Burst × Direction)) → IsWholeBurst ret → IsWholeRet ret
IsWholeBurst-ret none w = tt
IsWholeBurst-ret (some (Burst.tcp b, d)) w = w
IsWholeBurst-ret (some (Burst.udp ps, d)) w = tt
IsWholeBurst-ret (some (Burst.other ps, d)) w = tt

register_state_total :
    (s : TrackerState) (packet : ParsedPacket)
    → IsSound s
    → Returns (register_state s packet) λ r. IsSound r.0 × IsWholeRet r.1
unfolding register_state UdpTracker.register_packet GenericTracker.register_packet
register_state_total (TrackerState.tcp t) packet v =
    let (r, run, (valid, whole, _, _, _)) = register_packet-Routes t packet v in
    ((TrackerState.tcp r.0, r.1), rw run, (valid, IsWholeBurst-ret r.1 whole))
register_state_total (TrackerState.udp t) packet v =
    (_, refl, (tt, udp-whole packet.direction t packet))
register_state_total (TrackerState.other t) packet v =
    (_, refl, (tt, generic-whole packet.direction t packet))

pub default-IsSound : (protocol : Protocol) → IsSound (Tracker.default protocol)
unfolding Tracker.default
default-IsSound protocol = elim (Bool-cases (protocol == tcp_protocol)) [
  | inl is_tcp ↦ rw is_tcp new-IsValid
  | inr not_tcp ↦ elim (Bool-cases (protocol == udp_protocol)) [
    | inl is_udp ↦ rw (not_tcp, is_udp) tt
    | inr not_udp ↦ rw (not_tcp, not_udp) tt
  ]
]

pub register_tracker_total :
    (t : Tracker) (packet : ParsedPacket)
    → HasSoundState t
    → Returns
        (Tracker.register_packet t packet)
        λ r. HasSoundState r.0 × IsWholeRet r.1 × (r.0.last_registered ≡ packet.timestamp)
unfolding Tracker.register_packet
register_tracker_total t packet v =
    let (r, run, (sound, whole)) = register_state_total t.state packet v in
    (
      (record t { last_registered = packet.timestamp; state = r.0 }, r.1),
      rw run,
      (sound, whole, refl),
    )
