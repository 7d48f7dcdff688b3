-- ===== src/Tracking/Link/Reporting.antt =====
-- What the messages of a measurement window say, and what is reset with them.
use network_listener.Prelude.{
  ℕ, ◌+◌, ◌-◌, ◌≡◌, refl, ◌∙◌, Option, none, some, List, [], ◌∷◌, map, Returns, SystemTime,
  Duration, as_millis, Bool-cases, inl, inr, ltb, ◌==◌, if◌then◌else◌,
}
use network_listener.Prelude.Int.{pos}
use network_listener.Prelude.Double.{Double}
use network_listener.Prelude.HashMap.{HashMap}
use network_listener.Config.{AppConfig}
use network_listener.Tracking.StreamId.{IpPair}
use network_listener.Tracking.StreamManager
use network_listener.Tracking.StreamManager.{StreamManager, thput_since}
use network_listener.Registry.Estimation.{GinGout}
use network_listener.Registry.Estimation.Filtering.{PositiveIsNumber, kept}
use network_listener.Registry.Estimation.Fitting.{line_estimate, passive_pgm_abw_lem}
use network_listener.Registry.PacketRegistry
use network_listener.Registry.PacketRegistry.{PacketRegistry, RegressionType}
use network_listener.Tracking.LinkState.{
  LinkStateProto, RttMessage, PgmDps, get_rtt_message, to_proto, pgm_dp, or_zero,
}
use network_listener.Tracking.Link.{
  Readings, LinkManager, get_link_state, report, report_all, build_messages,
}

module _ {F : Type 0} ⦃f : Double F⦄ where
  -- zero, where there is none
  abbrev pub or_none : Option F → F
  or_none none = f.of_nat 0
  or_none (some x) = x

  or_zero_lem : (x : Option F) → or_zero x ≡ or_none x
  unfolding or_zero
  or_zero_lem none = refl
  or_zero_lem (some x) = refl

  -- the estimate by least squares, of the data points that the filter keeps
  abbrev pub estimate_of : AppConfig → PacketRegistry F → Option F
  estimate_of config r =
      let cap = config.client.link_phy_cap in line_estimate cap (kept cap r.pgm_estimator.dps)

  -- the mean of the round trips of a registry, zero where it has none
  abbrev pub mean_trip : PacketRegistry F → F
  mean_trip r = if r.rtt_count == 0 then f.of_nat 0 else f.div r.sum_rtt (f.of_nat r.rtt_count)

  mean_trip_lem : (r : PacketRegistry F) → or_none (PacketRegistry.avg_rtt r) ≡ mean_trip r
  unfolding PacketRegistry.avg_rtt
  mean_trip_lem r = elim (Bool-cases (r.rtt_count == 0)) [ inl e ↦ rw e refl | inr e ↦ rw e refl ]

  -- the last rate of iperf3 if it is older than the window, and zero otherwise
  abbrev pub iperf_rate : ℕ → Duration → F → Option ℕ → F
  iperf_rate instant window thput none = f.of_nat 0
  iperf_rate instant window thput (some measured) =
      if ltb window (instant - measured) then thput else f.of_nat 0

  -- both registries are new, both counters zero, and the streams and iperf results are kept
  pub record IsReset (at : Readings) (sm sm' : StreamManager F) : Type 0 where
    pub streams_kept : sm'.streams ≡ sm.streams
    pub sent_new : sm'.sent ≡ PacketRegistry.new at.sent_taken
    pub received_new : sm'.received ≡ PacketRegistry.new at.received_taken
    pub sent_zero : sm'.bytes_sent ≡ 0
    pub received_zero : sm'.bytes_received ≡ 0
    pub thput_kept : sm'.thput ≡ sm.thput
    pub last_kept : sm'.last_iperf ≡ sm.last_iperf

  abbrev pub AllReset :
      (ℕ → Readings) → HashMap IpPair (StreamManager F) → HashMap IpPair (StreamManager F) → Type 0
  AllReset clock [] [] = Unit
  AllReset clock ((k, sm) ∷ m) ((k', sm') ∷ m') =
      (k' ≡ k) × IsReset (clock 0) sm sm' × AllReset (λ i. clock (i + 1)) m m'
  AllReset clock _ _ = ⊥

  -- the messages about one link, field by field
  pub record Describes (config : AppConfig) (at : Readings) (k : IpPair) (sm : StreamManager F)
      (link : LinkStateProto F) (rtt : RttMessage F) (pgm : PgmDps F) : Type 0 where
    pub sender_is : link.sender_ip ≡ some k.local
    pub receiver_is : link.receiver_ip ≡ some k.remote
    pub rate_in :
        link.thp_in
        ≡ f.div (f.of_nat sm.bytes_received) (f.as_secs config.client.measurement_window)
    pub rate_out :
        link.thp_out ≡ f.div (f.of_nat sm.bytes_sent) (f.as_secs config.client.measurement_window)
    pub bandwidth :
        link.bw ≡ iperf_rate at.instant config.client.measurement_window sm.thput sm.last_iperf
    -- of the data points of what was sent
    pub available : link.abw ≡ or_none (estimate_of config sm.sent)
    pub mean_rtt : link.latency ≡ mean_trip sm.sent
    pub no_delay : link.delay ≡ f.of_nat 0
    pub no_jitter : link.jitter ≡ f.of_nat 0
    pub no_loss : link.loss ≡ f.of_nat 0
    pub link_time : link.timestamp ≡ as_millis at.tstamp
    pub rtt_sender : rtt.sender_ip ≡ k.local
    pub rtt_receiver : rtt.receiver_ip ≡ k.remote
    pub round_trips :
        rtt.rtt
        ≡ map
            (λ (r : ℕ × SystemTime). record { rtt = f.of_nat r.0; timestamp = as_millis r.1 })
            sm.sent.rtts
    pub pgm_sender : pgm.sender_ip ≡ k.local
    pub pgm_receiver : pgm.receiver_ip ≡ k.remote
    pub pgm_time : pgm.timestamp ≡ as_millis at.tstamp
    pub data_points :
        pgm.pgm_dp
        ≡ map
            (λ (dp : GinGout F). record {
              gin = dp.gin;
              gout = dp.gout;
              len = f.to_i32 dp.len;
              num_acked = pos dp.num_acked;
            })
            sm.sent.pgm_estimator.dps

  abbrev pub AllDescribed :
      AppConfig
      → (ℕ → Readings)
      → HashMap IpPair (StreamManager F)
      → List (LinkStateProto F)
      → List (RttMessage F)
      → List (PgmDps F)
      → Type 0
  AllDescribed config clock [] [] [] [] = Unit
  AllDescribed config clock ((k, sm) ∷ m) (link ∷ links) (rtt ∷ rtts) (pgm ∷ pgms) =
      Describes config (clock 0) k sm link rtt pgm
      × AllDescribed config (λ i. clock (i + 1)) m links rtts pgms
  AllDescribed config clock _ _ _ _ = ⊥

  thput_since_lem :
      (instant : ℕ) (window : Duration) (thput : F) (last : Option ℕ)
      → thput_since instant window thput last ≡ iperf_rate instant window thput last
  unfolding thput_since
  thput_since_lem instant window thput none = refl
  thput_since_lem instant window thput (some measured) = refl

  pub report_total :
      PositiveIsNumber F
      → (config : AppConfig) (at : Readings) (k : IpPair) (sm : StreamManager F)
      → config.client.regression_type ≡ RegressionType.simple
      → Returns
          (report config at k sm)
          λ ((link, rtt, pgm), sm'). Describes config at k sm link rtt pgm × IsReset at sm sm'
  unfolding report PacketRegistry.take get_link_state PacketRegistry.passive_abw get_rtt_message
      to_proto pgm_dp StreamManager.take_received StreamManager.take_sent StreamManager.tcp_thput
  report_total ieee config at k sm simple =
      let run = passive_pgm_abw_lem ieee config.client.link_phy_cap sm.sent.pgm_estimator in
      rw (simple, run)
        (
          _,
          refl,
          (
            record {
              sender_is = refl;
              receiver_is = refl;
              rate_in = refl;
              rate_out = refl;
              bandwidth =
                  thput_since_lem at.instant config.client.measurement_window sm.thput
                    sm.last_iperf;
              available = or_zero_lem (estimate_of config sm.sent);
              mean_rtt = or_zero_lem (PacketRegistry.avg_rtt sm.sent) ∙ mean_trip_lem sm.sent;
              no_delay = or_zero_lem none;
              no_jitter = or_zero_lem none;
              no_loss = or_zero_lem none;
              link_time = refl;
              rtt_sender = refl;
              rtt_receiver = refl;
              round_trips = refl;
              pgm_sender = refl;
              pgm_receiver = refl;
              pgm_time = refl;
              data_points = refl;
            },
            record {
              streams_kept = refl;
              sent_new = refl;
              received_new = refl;
              sent_zero = refl;
              received_zero = refl;
              thput_kept = refl;
              last_kept = refl;
            },
          ),
        )

  report_all_total :
      PositiveIsNumber F
      → (config : AppConfig) (clock : ℕ → Readings) (links : HashMap IpPair (StreamManager F))
      → config.client.regression_type ≡ RegressionType.simple
      → Returns (report_all config clock links) λ ((ls, rs, ps), links').
        AllDescribed config clock links ls rs ps × AllReset clock links links'
  unfolding report_all
  report_all_total ieee config clock [] simple = (_, refl, (tt, tt))
  report_all_total ieee config clock ((k, sm) ∷ rest) simple =
      let (((link, rtt, pgm), sm'), run, (described, reset)) =
        report_total ieee config (clock 0) k sm simple in
      let (((ls, rs, ps), rest'), run', (all, resets)) =
        report_all_total ieee config (λ i. clock (i + 1)) rest simple in
      (
        ((link ∷ ls, rtt ∷ rs, pgm ∷ ps), (k, sm') ∷ rest'),
        rw (run, run'),
        ((described, all), (refl, reset, resets)),
      )

  pub build_messages_total :
      PositiveIsNumber F
      → (config : AppConfig) (clock : ℕ → Readings) (m : LinkManager F)
      → config.client.regression_type ≡ RegressionType.simple
      → Returns (build_messages config clock m) λ ((links, rtts, pgms), m').
        AllDescribed config clock m.links links rtts pgms
        × AllReset clock m.links m'.links
        × (m'.vip_links ≡ m.vip_links)
  unfolding build_messages
  build_messages_total ieee config clock m simple =
      let ((messages, links'), run, (described, reset)) =
        report_all_total ieee config clock m.links simple in
      ((messages, record m { links = links' }), rw run, (described, reset, refl))
