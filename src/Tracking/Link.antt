-- ===== src/Tracking/Link.antt =====
-- src/listener/tracking/link.rs: the links of this host.
use network_listener.Prelude.{
  ℕ, Bool, true, false, ◌||◌, Option, none, some, List, [], ◌∷◌, ◌++◌, map, ◌+◌, ◌==◌,
  if◌then◌else◌, Run, ok, panic, ◌>>=◌, SystemTime, Duration, as_millis,
}
use network_listener.Prelude.Int.{ℤ, pos}
use network_listener.Prelude.Double.{Double}
use network_listener.Prelude.HashMap
use network_listener.Prelude.HashMap.{HashMap, Prober}
use network_listener.Packet.Ip.{IpAddr, v4, v6, is_loopback, is_multicast}
use network_listener.Packet.Parsed.{ParsedPacket, get_src_dst_port}
use network_listener.Capture.{PcapMeta}
use network_listener.Config.{AppConfig}
use network_listener.Net.Messages.{DataMsg}
use network_listener.Net.ClientHandler.{ClientHandlerEvent, init_clients, send_data_msg}
use network_listener.Tracking.StreamId.{Pair, IpPair, ip_pair_from_packet, ip_pair_hashed}
use network_listener.Tracking.StreamId
use network_listener.Tracking.StreamManager
use network_listener.Tracking.StreamManager.{StreamManager}
use network_listener.Registry.Estimation.{GinGout, PabweSender}
use network_listener.Tracking.LinkState.{
  LinkStateProto, LinkState, Link, PgmDp, PgmDps, Rtt, RttMessage, get_rtt_message, pgm_dp,
  to_proto,
}
use network_listener.Registry.PacketRegistry
use network_listener.Registry.PacketRegistry.{PacketRegistry}
pub mod Filtering
pub mod Inserting
pub mod Lookup
pub mod Reporting
pub mod Keeping
pub mod Rates

-- what the clocks say while one link is reported: the wall clock when its two registries are taken
-- and again for the time stamp, and the monotonic clock
pub record Readings : Type 0 where
  pub sent_taken : SystemTime
  pub received_taken : SystemTime
  pub tstamp : SystemTime
  pub instant : ℕ

abbrev pub Messages : Type 0 → Type 0
Messages F = List (LinkStateProto F) × List (RttMessage F) × List (PgmDps F)

pub record LinkManager (F : Type 0) : Type 0 where
  pub links : HashMap IpPair (StreamManager F)
  -- a `HashSet`
  pub vip_links : HashMap IpPair Unit
  pub pcap_meta : PcapMeta

is_server_port : ℕ → Option (ℕ × ℕ) → Bool
is_server_port port none = false
is_server_port port (some (src_port, dst_port)) = dst_port == port || src_port == port

-- the early returns of `insert`
unfoldable pub is_filtered : AppConfig → ParsedPacket → Bool
unfolding is_server_port
is_filtered config packet =
    is_loopback packet.src_ip
    || is_loopback packet.dst_ip
    || is_multicast packet.src_ip
    || is_multicast packet.dst_ip
    || is_server_port config.server.port (get_src_dst_port packet)

-- the pair under which `get_link_by_ext_ip` looks
unfoldable pub ext_pair : PcapMeta → IpAddr → IpPair
unfolding StreamId.new
ext_pair meta (v4 ip) = StreamId.new (v4 ip) (v4 meta.ipv4)
ext_pair meta (v6 ip) = StreamId.new (v6 ip) (v6 meta.ipv6)

module _ {F : Type 0} ⦃f : Double F⦄ where
  unfoldable pub new : PcapMeta → LinkManager F
  new pcap_meta = record { links = []; vip_links = []; pcap_meta = pcap_meta }

  unfoldable pub get_link_by_ext_ip : Prober → LinkManager F → IpAddr → Option (StreamManager F)
  get_link_by_ext_ip probe m ext_ip = HashMap.get probe (ext_pair m.pcap_meta ext_ip) m.links

  -- `or_insert_with`
  unfoldable pub manager_or_new : SystemTime → Option (StreamManager F) → StreamManager F
  manager_or_new now none = StreamManager.new now
  manager_or_new now (some sm) = sm

  unfoldable pub record_link :
      Prober → SystemTime → LinkManager F → ParsedPacket → Run (LinkManager F)
  record_link probe now m packet = do
    let ip_pair = ip_pair_from_packet packet
    sm ←
        StreamManager.record_packet probe (manager_or_new now (HashMap.get probe ip_pair m.links))
          packet
    ok (record m { links = HashMap.insert probe ip_pair sm m.links })

  unfoldable pub insert :
      AppConfig → Prober → SystemTime → LinkManager F → ParsedPacket → Run (LinkManager F)
  unfolding record_link
  insert config probe now m packet =
      if is_filtered config packet then ok m else record_link probe now m packet

  unfoldable pub insert_iperf_result :
      Prober → SystemTime → ℕ → LinkManager F → IpPair → F → LinkManager F
  insert_iperf_result probe now instant m ip_pair bps =
      let sm = manager_or_new now (HashMap.get probe ip_pair m.links) in
      record m {
        links =
            HashMap.insert probe ip_pair (StreamManager.record_iperf_result instant sm bps) m.links;
      }

  -- the loop over the links
  unfoldable pub each_periodic :
      SystemTime → HashMap IpPair (StreamManager F) → Run (HashMap IpPair (StreamManager F))
  each_periodic now [] = ok []
  each_periodic now ((k, sm) ∷ rest) = do
    sm' ← StreamManager.periodic now sm
    rest' ← each_periodic now rest
    ok ((k, sm') ∷ rest')

  unfoldable pub periodic : SystemTime → LinkManager F → Run (LinkManager F)
  periodic now m = do links ← each_periodic now m.links; ok (record m { links = links })

  -- an address that was not parsed is only logged
  unfoldable pub add_important_link : Prober → LinkManager F → Option IpAddr → LinkManager F
  unfolding StreamId.new
  add_important_link probe m none = m
  add_important_link probe m (some ip_addr) = record m {
    vip_links = HashMap.insert probe (StreamId.new (v4 m.pcap_meta.ipv4) ip_addr) tt m.vip_links;
  }

  unfoldable pub collect_external_ips : LinkManager F → List IpAddr
  collect_external_ips m = map (λ (e : IpPair × StreamManager F). e.0.remote) m.links

  unfoldable pub get_link_state :
      AppConfig
      → Readings
      → StreamManager F
      → PacketRegistry F
      → IpPair
      → Run ((Link F × PgmDps F) × StreamManager F)
  unfolding pgm_dp
  get_link_state config at sm pkt_reg ip_pair = do
    (abw, _) ←
        PacketRegistry.passive_abw config.client.link_phy_cap pkt_reg config.client.regression_type
    let window = config.client.measurement_window
    let (received, sm1) = StreamManager.take_received sm
    let (sent, sm2) = StreamManager.take_sent sm1
    ok (
      (
        record {
          ip_pair = ip_pair;
          state = record {
            thp_in = f.div (f.of_nat received) (f.as_secs window);
            thp_out = f.div (f.of_nat sent) (f.as_secs window);
            bw = some (StreamManager.tcp_thput at.instant window sm2);
            abw = abw;
            latency = PacketRegistry.avg_rtt pkt_reg;
            delay = none;
            jitter = none;
            loss = none;
            timestamp = as_millis at.tstamp;
          };
        },
        record {
          pgm_dp = map pgm_dp pkt_reg.pgm_estimator.dps;
          timestamp = as_millis at.tstamp;
          sender_ip = ip_pair.local;
          receiver_ip = ip_pair.remote;
        },
      ),
      sm2,
    )

  -- what is sent about one link, with both of its registries and both counters reset
  unfoldable pub report :
      AppConfig
      → Readings
      → IpPair
      → StreamManager F
      → Run ((LinkStateProto F × RttMessage F × PgmDps F) × StreamManager F)
  unfolding to_proto get_rtt_message
  report config at ip_pair sm = do
    let (sent_registry, sent') = PacketRegistry.take at.sent_taken sm.sent
    let (_, received') = PacketRegistry.take at.received_taken sm.received
    ((link, pgm), sm') ←
        get_link_state config at (record sm { sent = sent'; received = received' }) sent_registry
          ip_pair
    ok ((to_proto link, get_rtt_message sent_registry.rtts ip_pair, pgm), sm')

  -- the clocks are read anew for every link: `clock i` is for the link at place `i` of the iteration
  unfoldable pub report_all :
      AppConfig
      → (ℕ → Readings)
      → HashMap IpPair (StreamManager F)
      → Run (Messages F × HashMap IpPair (StreamManager F))
  report_all config clock [] = ok (([], [], []), [])
  report_all config clock ((k, sm) ∷ rest) = do
    ((link, rtt, pgm), sm') ← report config (clock 0) k sm
    ((links, rtts, pgms), rest') ← report_all config (λ i. clock (i + 1)) rest
    ok ((link ∷ links, rtt ∷ rtts, pgm ∷ pgms), (k, sm') ∷ rest')

  unfoldable pub build_messages :
      AppConfig → (ℕ → Readings) → LinkManager F → Run (Messages F × LinkManager F)
  build_messages config clock m = do
    (messages, links) ← report_all config clock m.links
    ok (messages, record m { links = links })

  unfoldable pub only_if : Bool → ClientHandlerEvent F → List (ClientHandlerEvent F)
  only_if wanted event = if wanted then event ∷ [] else []

  -- the events that are sent, in this order; a closed channel is only logged
  unfoldable pub send_bandwidth :
      AppConfig → (ℕ → Readings) → LinkManager F → Run (List (ClientHandlerEvent F) × LinkManager F)
  unfolding only_if
  send_bandwidth config clock m = do
    ((links, rtt, pgm), m') ← build_messages config clock m
    ok (
      only_if config.server.send_link_states (send_data_msg (DataMsg.bandwidth links))
          ++ only_if config.server.send_rtts (send_data_msg (DataMsg.rtts rtt))
          ++ only_if config.server.send_pgm_dps (send_data_msg (DataMsg.pgmmsg pgm)),
      m',
    )

  -- `unwrap` panics when the channel is closed
  unfoldable pub send_init_clients_msg : Bool → LinkManager F → Run (ClientHandlerEvent F)
  send_init_clients_msg is_open m =
      if is_open then ok (init_clients (collect_external_ips m)) else panic
