-- ===== src/Packet/Transport/Fields.antt =====
-- What `TransportPacket::from_data` keeps of the protocol number and of the length.
use network_listener.Prelude.{ℕ, ◌≡◌, refl, Option, none, some, List, arith}
use network_listener.Packet.Transport.{
  Protocol, TcpView, Pnet, tcp_protocol, get_ip_proto, tcp_from_view, from_data,
}

proto-tcp_from_view :
    (view : Option TcpView) (n : ℕ)
    → get_ip_proto (tcp_from_view view tcp_protocol n) ≡ tcp_protocol
unfolding tcp_from_view get_ip_proto
proto-tcp_from_view none n = refl
proto-tcp_from_view (some v) n = refl

-- Whatever the bytes hold, also where a header cannot be read, a parsed transport packet keeps the
-- protocol number that the IP header gave.
pub get_ip_proto-from_data :
    (pnet : Pnet) (payload : List ℕ) (protocol : Protocol) (payload_len : ℕ)
    → get_ip_proto (from_data pnet payload protocol payload_len) ≡ protocol
unfolding from_data get_ip_proto
get_ip_proto-from_data pnet payload protocol payload_len = ground arith
