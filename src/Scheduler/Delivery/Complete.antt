-- ===== src/Scheduler/Delivery/Complete.antt =====
-- That a measurement of a host is stored.
use network_listener.Prelude.{List, ◌++◌}
use network_listener.Prelude.Double.{Double}
use network_listener.Config.{AppConfig}
use network_listener.Tracking.LinkState.{LinkStateProto, RttMessage, PgmDps}
use network_listener.Tracking.Link
use network_listener.Parser.{Parser}
use network_listener.Net.Messages.{DataMsg}
use network_listener.Scheduler.Delivery.Filling.{chosen}

module _ {F : Type 0} ⦃f : Double F⦄ where
  -- the messages of a window, in the order in which they are sent
  abbrev wanted :
      AppConfig → List (LinkStateProto F) → List (RttMessage F) → List (PgmDps F) → List (DataMsg F)
  wanted config ls rs ps =
      chosen config.server.send_link_states (DataMsg.bandwidth ls)
      ++ chosen config.server.send_rtts (DataMsg.rtts rs)
      ++ chosen config.server.send_pgm_dps (DataMsg.pgmmsg ps)
