-- ===== src/Parser/Reaching.antt =====
-- The states that the event loop comes to.
use network_listener.Prelude.{◌≡◌, List, ok, ok-injective, sym, ◌∙◌, subst}
use network_listener.Prelude.Double.{Double}
use network_listener.Prelude.HashMap.{Prober}
use network_listener.Packet.Transport.{Pnet}
use network_listener.Capture.{PcapMeta}
use network_listener.Config.{AppConfig}
use network_listener.Tracking.StreamId.{ip_pair_hashed}
use network_listener.Net.ClientHandler.{ClientHandlerEvent}
use network_listener.Registry.Estimation.Filtering.{PositiveIsNumber}
use network_listener.Registry.PacketRegistry.{RegressionType}
use network_listener.Parser.{Event, Moment, Parser, new, step}
use network_listener.Parser.Handling.{IsSoundParser, new-IsSoundParser, IsAllowed, step_total}

module _ {N S F : Type 0} ⦃f : Double F⦄ (config : AppConfig) (pnet : Pnet) (probe : Prober) where
  -- the states that the loop comes to by allowed turns, whatever their order
  pub data Reachable (meta : PcapMeta) : Parser N S F → Type 0 where
    start : Reachable meta (new meta)
    turn :
        (at : Moment) (e : Event N S F) {p : Parser N S F}
        {r : Parser N S F × List (ClientHandlerEvent F)}
        → Reachable meta p
        → IsAllowed config pnet probe at p e
        → step config pnet probe at p e ≡ ok r
        → Reachable meta r.0

  -- Where no value above zero is a NaN, and with ordinary least squares: every state that the loop
  -- comes to by allowed turns is sound, in whatever order packets, results, samples, replies and
  -- ticks come.
  pub Reachable-IsSoundParser :
      PositiveIsNumber F
      → config.client.regression_type ≡ RegressionType.simple
      → (meta : PcapMeta) (p : Parser N S F) → Reachable meta p
      → IsSoundParser p
  Reachable-IsSoundParser ieee simple meta _ start = new-IsSoundParser meta
  Reachable-IsSoundParser ieee simple meta _ (turn at e {p} {r} before a run) =
      let (r', run', sound) =
        step_total config pnet probe ieee simple at p e
          (Reachable-IsSoundParser ieee simple meta p before) a in
      let same : r' ≡ r = ok-injective (sym run' ∙ run) in subst (λ x. IsSoundParser x.0) same sound
