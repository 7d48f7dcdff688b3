-- ===== src/Parser.antt =====
-- src/listener/parser.rs: the handlers of the event loop. `N` and `S` stand for the samples of
-- netlink and procfs, which the loop only keeps.
use network_listener.Prelude.{
  ℕ, Bool, true, false, Option, none, some, List, [], ◌∷◌, ◌++◌, length, drop, ltb, ◌==◌,
  if◌then◌else◌, Run, ok, panic, ◌>>=◌, SystemTime,
}
use network_listener.Prelude.Int.{ℤ, as_u16}
use network_listener.Prelude.Double.{Double}
use network_listener.Prelude.HashMap.{Prober}
use network_listener.Packet.Ip.{IpAddr}
use network_listener.Packet.Transport.{Pnet, Protocol, tcp_protocol}
use network_listener.Packet.Parsed
use network_listener.Packet.Parsed.{ParsedPacket}
use network_listener.Capture.{OwnedPacket, PcapMeta}
use network_listener.Config.{AppConfig}
use network_listener.Tracking.StreamId
use network_listener.Tracking.StreamId.{Pair, IpPair, StreamKey, new_key}
use network_listener.Tracking.Link
use network_listener.Tracking.Link.{LinkManager, Readings}
use network_listener.Net.ClientHandler.{ClientHandlerEvent}
pub mod Handling
pub mod Reaching
pub mod Polling

-- one entry of `connected`; a host is `none` where its text is no address
pub record Connected : Type 0 where
  pub local_host : Option IpAddr
  pub local_port : ℤ
  pub remote_host : Option IpAddr
  pub remote_port : ℤ

from_hosts : Connected → Protocol → Option IpAddr → Option IpAddr → Run (StreamKey × IpPair)
unfolding new_key StreamId.new
from_hosts connected proto (some local) (some remote) = ok (
  new_key proto (some (as_u16 connected.local_port)) (some (as_u16 connected.remote_port)),
  StreamId.new local remote,
)
from_hosts connected proto _ _ = panic

-- stream_id.rs
unfoldable pub from_iperf_connected : Connected → Protocol → Run (StreamKey × IpPair)
unfolding from_hosts
from_iperf_connected connected proto =
    from_hosts connected proto connected.local_host connected.remote_host

-- of the result only what the handler reads
pub data IperfResponse (F : Type 0) : Type 0 where
  error : IperfResponse F
  success : List Connected → F → F → IperfResponse F

pub data Event (N S F : Type 0) : Type 0 where
  packet : OwnedPacket → Event N S F
  iperf_response : IperfResponse F → Event N S F
  -- `Protobuf`, `PathloadResponse`, `PingResponse`, `Error`, and other replies: only logged
  logged : Event N S F
  periodic_data : Option N → S → Event N S F
  -- the address, if its text is one
  server_connected : Option IpAddr → Event N S F
  cleanup_tick : Event N S F
  measurement_tick : Event N S F

-- what the two clocks say at a turn, and again for each link that is reported, and whether the
-- client's channel is open
pub record Moment : Type 0 where
  pub now : SystemTime
  pub instant : ℕ
  pub readings : ℕ → Readings
  pub is_open : Bool

pub record Parser (N S F : Type 0) : Type 0 where
  pub pcap_meta : PcapMeta
  pub link_manager : LinkManager F
  pub netlink_data : List N
  pub netstat_data : Option S

pub push_netlink : {N : Type 0} → Option N → List N → List N
push_netlink none window = window
push_netlink (some sample) window = window ++ sample ∷ []

-- `remove(0)` above a length of 10
pub trim : {N : Type 0} → List N → List N
trim window = if ltb 10 (length window) then drop 1 window else window

module _ {N S F : Type 0} ⦃f : Double F⦄ where
  unfoldable pub new : PcapMeta → Parser N S F
  new pcap_meta = record {
    pcap_meta = pcap_meta;
    link_manager = Link.new pcap_meta;
    netlink_data = [];
    netstat_data = none;
  }

  unfoldable pub handle_periodic : Parser N S F → Option N → S → Parser N S F
  unfolding push_netlink trim
  handle_periodic p netlink netstat = record p {
    netlink_data = trim (push_netlink netlink p.netlink_data);
    netstat_data = some netstat;
  }

  insert_parsed :
      AppConfig → Prober → SystemTime → Parser N S F → Option ParsedPacket → Run (Parser N S F)
  insert_parsed config probe now p none = ok p
  insert_parsed config probe now p (some parsed_packet) = do
    m ← Link.insert config probe now p.link_manager parsed_packet
    ok (record p { link_manager = m })

  unfoldable pub handle_capture :
      AppConfig → Pnet → Prober → SystemTime → Parser N S F → OwnedPacket → Run (Parser N S F)
  unfolding insert_parsed
  handle_capture config pnet probe now p frame = do
    parsed ← Parsed.from_packet pnet frame p.pcap_meta
    insert_parsed config probe now p parsed

  -- only a result with a single connection is used
  unfoldable pub handle_iperf :
      Prober → Moment → Parser N S F → IperfResponse F → Run (Parser N S F)
  handle_iperf probe at p (success (connected ∷ []) received sent) = do
    (_, ip_pair) ← from_iperf_connected connected tcp_protocol
    ok (record p {
      link_manager =
          Link.insert_iperf_result probe at.now at.instant p.link_manager ip_pair
            (f.max received sent);
    })
  handle_iperf probe at p _ = ok p

  unfoldable pub handle_measurement :
      AppConfig → Moment → Parser N S F → Run (Parser N S F × List (ClientHandlerEvent F))
  handle_measurement config at p = do
    (sent, m) ← Link.send_bandwidth config at.readings p.link_manager
    init ← Link.send_init_clients_msg at.is_open m
    ok (record p { link_manager = m }, sent ++ init ∷ [])

  -- one turn of the loop, with the events that it sends
  unfoldable pub step :
      AppConfig
      → Pnet
      → Prober
      → Moment
      → Parser N S F
      → Event N S F
      → Run (Parser N S F × List (ClientHandlerEvent F))
  step config pnet probe at p (packet frame) = do
    p' ← handle_capture config pnet probe at.now p frame
    ok (p', [])
  step config pnet probe at p (iperf_response result) = do
    p' ← handle_iperf probe at p result
    ok (p', [])
  step config pnet probe at p logged = ok (p, [])
  step config pnet probe at p (periodic_data netlink netstat) =
      ok (handle_periodic p netlink netstat, [])
  step config pnet probe at p (server_connected ip) =
      ok (record p { link_manager = Link.add_important_link probe p.link_manager ip }, [])
  step config pnet probe at p cleanup_tick = do
    m ← Link.periodic at.now p.link_manager
    ok (record p { link_manager = m }, [])
  step config pnet probe at p measurement_tick = handle_measurement config at p
