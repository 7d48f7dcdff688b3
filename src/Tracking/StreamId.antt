-- ===== src/Tracking/StreamId.antt =====
-- src/listener/tracking/stream_id.rs
use network_listener.Prelude.{
  ℕ, Bool, true, false, ◌&&◌, ◌||◌, Option, none, some, List, [], ◌∷◌, ◌++◌, ◌==◌, ◌%◌, u16,
}
use network_listener.Prelude.HashMap.{Hashed}
use network_listener.Packet.Direction.{Direction, incoming, outgoing}
use network_listener.Packet.Ip.{IpAddr, v4, v6, ip_eq}
use network_listener.Packet.Transport.{TransportPacket, tcp, udp, Protocol, get_ip_proto}
use network_listener.Packet.Parsed.{ParsedPacket}
pub mod Pairing

-- `Pairable`: what is compared and hashed
pub record Pairable (T : Type 0) : Type 0 where
  pub eq : T → T → Bool
  pub words : T → List ℕ

-- the derived hash of `IpAddr` feeds the variant and the address
instance abbrev pub ip_pairable : Pairable IpAddr
ip_pairable = record { eq = ip_eq; words = ip_words }
  where
    ip_words : IpAddr → List ℕ
    ip_words (v4 a) = 4 ∷ a ∷ []
    ip_words (v6 a) = 6 ∷ a ∷ []

-- the port of a stream, if its protocol has any
abbrev Port : Type 0
Port = Option ℕ

abbrev port_eq : Port → Port → Bool
port_eq none none = true
port_eq (some a) (some b) = a == b
port_eq _ _ = false

abbrev port_words : Port → List ℕ
port_words none = 0 ∷ []
port_words (some p) = 1 ∷ p ∷ []

instance abbrev pub port_pairable : Pairable Port
port_pairable = record { eq = port_eq; words = port_words }

pub record Pair (T : Type 0) : Type 0 where
  pub local : T
  pub remote : T

module _ {T : Type 0} where
  unfoldable pub new : T → T → Pair T
  new local remote = record { local = local; remote = remote }

  unfoldable pub from_direction : T → T → Direction → Pair T
  unfolding new
  from_direction t_src t_dst incoming = new t_dst t_src
  from_direction t_src t_dst outgoing = new t_src t_dst

module _ {T : Type 0} ⦃t : Pairable T⦄ where
  -- `PartialEq for Pair`
  unfoldable pub pair_eq : Pair T → Pair T → Bool
  pair_eq a b =
      t.eq a.local b.local && t.eq a.remote b.remote
      || t.eq a.local b.remote && t.eq a.remote b.local

  -- the derived `Hash`: the two sides in this order
  unfoldable pub pair_words : Pair T → List ℕ
  pair_words p = t.words p.local ++ t.words p.remote

abbrev pub IpPair : Type 0
IpPair = Pair IpAddr

instance abbrev pub ip_pair_hashed : Hashed IpPair
ip_pair_hashed = record { equal = pair_eq; words = pair_words }

-- `Pair::<IpAddr>::from_packet`
unfoldable pub ip_pair_from_packet : ParsedPacket → IpPair
unfolding from_direction
ip_pair_from_packet packet = from_direction packet.src_ip packet.dst_ip packet.direction

pub record StreamKey : Type 0 where
  pub ports : Pair Port
  pub protocol : Protocol

unfoldable pub new_key : Protocol → Port → Port → StreamKey
unfolding new
new_key protocol local remote = record { ports = new local remote; protocol = protocol }

unfoldable pub key_from_direction : Protocol → Port → Port → Direction → StreamKey
unfolding from_direction
key_from_direction protocol src dst direction = record {
  ports = from_direction src dst direction;
  protocol = protocol;
}

key_of : TransportPacket → Direction → StreamKey
unfolding key_from_direction new_key get_ip_proto
key_of (tcp s) direction =
    key_from_direction (get_ip_proto (tcp s)) (some s.src_port) (some s.dst_port) direction
key_of (udp d) direction =
    key_from_direction (get_ip_proto (udp d)) (some d.src_port) (some d.dst_port) direction
key_of transport direction = new_key (get_ip_proto transport) none none

unfoldable pub key_from_packet : ParsedPacket → StreamKey
unfolding key_of
key_from_packet packet = key_of packet.transport packet.direction

-- the derived `PartialEq` and `Hash`
unfoldable pub key_eq : StreamKey → StreamKey → Bool
unfolding pair_eq
key_eq a b = pair_eq a.ports b.ports && a.protocol == b.protocol

unfoldable pub key_words : StreamKey → List ℕ
unfolding pair_words
key_words k = pair_words k.ports ++ k.protocol ∷ []

instance abbrev pub stream_key_hashed : Hashed StreamKey
stream_key_hashed = record { equal = key_eq; words = key_words }

-- the two ends of a socket, as procfs lists it or as iperf reports it
unfoldable pub from_ends : Protocol → IpAddr → ℕ → IpAddr → ℕ → StreamKey × IpPair
unfolding new_key new
from_ends protocol local_ip local_port remote_ip remote_port =
    (new_key protocol (some local_port) (some remote_port), new local_ip remote_ip)
