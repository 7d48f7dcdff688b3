-- ===== src/Parser/Handling.antt =====
-- What every turn of the event loop keeps.
use network_listener.Prelude.{
  ◌≤◌, ◌≡◌, refl, true, Option, none, some, List, [], ◌∷◌, ◌++◌, length, length-append, length-drop,
  ok, Returns, arith, SystemTime,
}
use network_listener.Prelude.Double.{Double}
use network_listener.Prelude.HashMap.{Prober}
use network_listener.Packet.Transport.{Pnet, tcp_protocol}
use network_listener.Packet.Parsed
use network_listener.Packet.Parsed.{ParsedPacket}
use network_listener.Capture.{OwnedPacket, PcapMeta}
use network_listener.Config.{AppConfig}
use network_listener.Tracking.StreamId.{StreamKey, IpPair, ip_pair_hashed}
use network_listener.Tracking.Link
use network_listener.Tracking.Link.{LinkManager}
use network_listener.Tracking.Link.Inserting.{
  AllSound, LinksPast, insert_total, periodic_links_total,
}
use network_listener.Tracking.Link.Reporting.{build_messages_total}
use network_listener.Registry.Estimation.Filtering.{PositiveIsNumber}
use network_listener.Registry.PacketRegistry.{RegressionType}
use network_listener.Tracking.Link.Keeping.{reset-AllSound, insert_iperf_result-AllSound}
use network_listener.Parser.{
  IperfResponse, success, error, Event, packet, iperf_response, logged, periodic_data,
  server_connected, cleanup_tick, measurement_tick, Moment, Parser, push_netlink, trim, new,
  from_iperf_connected, insert_parsed, handle_periodic, handle_capture, handle_iperf,
  handle_measurement, step,
}

module _ {N S F : Type 0} ⦃f : Double F⦄ where
  -- all links are sound, and the netlink samples are at most ten
  pub record IsSoundParser (p : Parser N S F) : Type 0 where
    pub links_sound : AllSound p.link_manager.links
    pub window_bounded : length p.netlink_data ≤ 10

  pub new-IsSoundParser : (meta : PcapMeta) → IsSoundParser (new meta)
  unfolding new Link.new
  new-IsSoundParser meta = record { links_sound = tt; window_bounded = omega arith }

pub trim-le :
    {N : Type 0} (sample : Option N) (window : List N)
    → length window ≤ 10
    → length (trim (push_netlink sample window)) ≤ 10
unfolding trim push_netlink
trim-le none window h = ground (arith, h)
trim-le (some x) window h =
    ground (arith, h, length-append window (x ∷ []), length-drop 1 (window ++ x ∷ []))

module _ {N S F : Type 0} ⦃f : Double F⦄ (config : AppConfig) (pnet : Pnet) (probe : Prober) where
  -- what keeps a handler from panicking: a frame that is parsed, addresses that are, no packet ahead of
  -- the clock, and a channel that is open
  abbrev pub IsAllowed : Moment → Parser N S F → Event N S F → Type 0
  IsAllowed at p (packet frame) =
      (parsed : Option ParsedPacket) × (Parsed.from_packet pnet frame p.pcap_meta ≡ ok parsed)
  IsAllowed at p (iperf_response (success (connected ∷ []) received sent)) =
      (k : StreamKey × IpPair) × (from_iperf_connected connected tcp_protocol ≡ ok k)
  IsAllowed at p cleanup_tick = LinksPast at.now p.link_manager.links
  IsAllowed at p measurement_tick = at.is_open ≡ true
  IsAllowed at p _ = Unit

  -- the step ends normally in a sound state
  abbrev StepsWell : Moment → Parser N S F → Event N S F → Type 0
  StepsWell at p e = Returns (step config pnet probe at p e) λ r. IsSoundParser r.0

  insert_parsed_total :
      (now : SystemTime) (p : Parser N S F) (parsed : Option ParsedPacket)
      → IsSoundParser p
      → Returns (insert_parsed config probe now p parsed) IsSoundParser
  unfolding insert_parsed
  insert_parsed_total now p none v = (p, refl, v)
  insert_parsed_total now p (some parsed) v =
      let (m, run, (sound, _)) =
        insert_total config probe now p.link_manager parsed v.links_sound in
      (
        record p { link_manager = m },
        rw run,
        record { links_sound = sound; window_bounded = v.window_bounded },
      )

  capture_total :
      (at : Moment) (p : Parser N S F) (frame : OwnedPacket)
      → IsSoundParser p
      → IsAllowed at p (packet frame)
      → StepsWell at p (packet frame)
  unfolding step handle_capture
  capture_total at p frame v (parsed, run) =
      let (p', run', sound) = insert_parsed_total at.now p parsed v in
      ((p', []), rw (run, run'), sound)

  iperf_total :
      (at : Moment) (p : Parser N S F) (result : IperfResponse F)
      → IsSoundParser p
      → IsAllowed at p (iperf_response result)
      → StepsWell at p (iperf_response result)
  unfolding step handle_iperf
  iperf_total at p error v a = (_, refl, v)
  iperf_total at p (success [] received sent) v a = (_, refl, v)
  iperf_total at p (success (c ∷ d ∷ rest) received sent) v a = (_, refl, v)
  iperf_total at p (success (c ∷ []) received sent) v (k, run) = rw run (
    _,
    refl,
    record {
      links_sound =
          insert_iperf_result-AllSound probe at.now at.instant p.link_manager k.1
            (f.max received sent) v.links_sound;
      window_bounded = v.window_bounded;
    },
  )

  measurement_total :
      PositiveIsNumber F
      → config.client.regression_type ≡ RegressionType.simple
      → (at : Moment) (p : Parser N S F) → IsSoundParser p
      → at.is_open ≡ true
      → StepsWell at p measurement_tick
  unfolding step handle_measurement Link.send_bandwidth Link.send_init_clients_msg
  measurement_total ieee simple at p v opened =
      let ((messages, m), run, (_, reset, _)) =
        build_messages_total ieee config at.readings p.link_manager simple in
      rw (run, opened)
        (
          _,
          refl,
          record {
            links_sound =
                reset-AllSound at.readings p.link_manager.links m.links v.links_sound reset;
            window_bounded = v.window_bounded;
          },
        )

  -- Where no value above zero is a NaN, and with ordinary least squares: every turn of the event
  -- loop that is allowed in a sound state ends normally in a sound state, in which all links are
  -- sound and there are at most ten samples of netlink.
  pub step_total :
      PositiveIsNumber F
      → config.client.regression_type ≡ RegressionType.simple
      → (at : Moment) (p : Parser N S F) (e : Event N S F) → IsSoundParser p
      → IsAllowed at p e
      → Returns (step config pnet probe at p e) λ r. IsSoundParser r.0
  unfolding step handle_periodic Link.add_important_link
  step_total ieee simple at p (packet frame) v a = capture_total at p frame v a
  step_total ieee simple at p (iperf_response result) v a = iperf_total at p result v a
  step_total ieee simple at p logged v a = (_, refl, v)
  step_total ieee simple at p (periodic_data netlink netstat) v a = (
    _,
    refl,
    record {
      links_sound = v.links_sound;
      window_bounded = trim-le netlink p.netlink_data v.window_bounded;
    },
  )
  step_total ieee simple at p (server_connected none) v a =
      (_, refl, record { links_sound = v.links_sound; window_bounded = v.window_bounded })
  step_total ieee simple at p (server_connected (some ip)) v a =
      (_, refl, record { links_sound = v.links_sound; window_bounded = v.window_bounded })
  step_total ieee simple at p cleanup_tick v past =
      let (m, run, (sound, _)) = periodic_links_total at.now p.link_manager v.links_sound past in
      (
        (record p { link_manager = m }, []),
        rw run,
        record { links_sound = sound; window_bounded = v.window_bounded },
      )
  step_total ieee simple at p measurement_tick v opened =
      measurement_total ieee simple at p v opened
