-- ===== src/Scheduler/Delivery.antt =====
-- The way of a measurement from the links of a host to the rows of the database: the parser's tick,
-- the handler of the clients, the broadcast, the stream to the server and the server's loop; and what
-- the rows are to say.
use Prim.Native.String.{String}
use mathlib.Core.Logic.Or
use mathlib.Core.List.{mem-cons}
use network_listener.Prelude.{
  ℕ, ◌+◌, zero, suc, ◌<◌, ◌≡◌, ◌⊎◌, inl, inr, refl, ap, ap₂, ◌∙◌, Bool, true, false, Option, none,
  some, List, [], ◌∷◌, ◌++◌, map, Mem, ltb, Run, ok, panic, ◌>>=◌, Returns, arith, All, All-append,
  All-Mem, append_assoc, append-nil, if◌then◌else◌, subst, SystemTime, as_millis, Bool-cases,
}
use network_listener.Prelude.Int.{ℤ, pos}
use network_listener.Prelude.Double.{Double}
use network_listener.Prelude.HashMap.{HashMap, Prober, FindsSame}
use network_listener.Packet.Ip.{IpAddr}
use network_listener.Packet.Transport.{Pnet}
use network_listener.Config.{AppConfig}
use network_listener.Registry.Estimation.Filtering.{PositiveIsNumber}
use network_listener.Registry.PacketRegistry.{RegressionType}
use network_listener.Tracking.LinkState.{LinkStateProto, RttMessage, PgmDp, PgmDps, Rtt}
use network_listener.Tracking.StreamId.{IpPair}
use network_listener.Tracking.StreamManager.{StreamManager}
use network_listener.Tracking.Link
use network_listener.Tracking.Link.{only_if}
use network_listener.Tracking.Link.Reporting.{
  AllDescribed, iperf_rate, or_none, estimate_of, mean_trip,
}
use network_listener.Registry.Estimation.{GinGout, passive_pgm_abw}
use network_listener.Tracking.Link.{Readings}
use network_listener.Parser.{Parser, Moment, measurement_tick, handle_measurement, step}
use network_listener.Net.Messages.{DataMsg}
use network_listener.Net.BwClient.{ClientEventResult}
use network_listener.Net.ClientHandler.{
  Clients, World, ClientHandlerEvent, Effect, send_data_msg, init_clients, broadcast, hello_to,
  replied, iperf_client, pathload_client, connect_all, handle, start_event_loop,
}
use network_listener.Net.ClientHandler.Initialising.{connect_all_total}
use network_listener.Net.BwServer.{message, stream_data_msg, msg_stream}
use network_listener.Net.BwServer.Streaming.{Delivers, done, got, refusals, stream_data_msg_lem}
use network_listener.Scheduler.Receiving.{taken, client_stream}
use network_listener.Scheduler.Database.{Statement, Value, addr, float, int, time}
use network_listener.Scheduler.Database.Rows.{Row, row_of, value_of}
use network_listener.Scheduler.Database.Expected.{
  flat_map, when_some, link_row, state_fields, state_rows, trip_rows, gap_rows, gap_row,
}
use network_listener.Scheduler.Server.{received, run_server}
use network_listener.Scheduler.Server.Storing.{msg_rows, event_rows, run_server-rows}
pub mod Passing
pub mod Filling
pub mod Complete

module _ {F : Type 0} where
  -- the messages that the handler puts on the broadcast
  abbrev pub broadcasts : List (Effect F) → List (DataMsg F)
  broadcasts [] = []
  broadcasts (broadcast msg ∷ rest) = msg ∷ broadcasts rest
  broadcasts (hello_to task text ∷ rest) = broadcasts rest
  broadcasts (replied result ∷ rest) = broadcasts rest
  broadcasts (iperf_client ip port duration ∷ rest) = broadcasts rest
  broadcasts (pathload_client ip ∷ rest) = broadcasts rest

module _ {F T : Type 0} ⦃f : Double F⦄ (experiment_id : ℤ) where
  -- the row of a link: its two ends, and what its columns say
  pub record IsStored (config : AppConfig) (at : Readings) (ts : T) (k : IpPair)
      (sm : StreamManager F) (row : Row F T) : Type 0 where
    pub in_table : row.table ≡ some "link_state"
    pub sender_is : value_of row.bound 1 ≡ some (some (addr (some k.local)))
    pub receiver_is : value_of row.bound 2 ≡ some (some (addr (some k.remote)))
    pub rate_in :
        Mem
          (
            "thp_in",
            some (
                float (
                  f.div (f.of_nat sm.bytes_received) (f.as_secs config.client.measurement_window))),
          )
          row.fields
    pub rate_out :
        Mem
          (
            "thp_out",
            some (
                float
                  (f.div (f.of_nat sm.bytes_sent) (f.as_secs config.client.measurement_window))),
          )
          row.fields
    pub bandwidth :
        Mem
          (
            "bw",
            some (
                float
                  (iperf_rate at.instant config.client.measurement_window sm.thput sm.last_iperf)),
          )
          row.fields
    pub available : Mem ("abw", some (float (or_none (estimate_of config sm.sent)))) row.fields
    pub mean_rtt : Mem ("latency", some (float (mean_trip sm.sent))) row.fields
    pub no_delay : Mem ("delay", some (float (f.of_nat 0))) row.fields
    pub no_jitter : Mem ("jitter", some (float (f.of_nat 0))) row.fields
    pub no_loss : Mem ("loss", some (float (f.of_nat 0))) row.fields
    pub taken_at : Mem ("time", some (time ts)) row.fields
    pub in_experiment : Mem ("experiment_id", some (int experiment_id)) row.fields

  -- one row for each link, each at its time
  abbrev pub AllStored :
      AppConfig
      → (ℕ → Readings)
      → (ℕ → T)
      → HashMap IpPair (StreamManager F)
      → List (Row F T)
      → Type 0
  AllStored config clock times [] [] = Unit
  AllStored config clock times ((k, sm) ∷ m) (row ∷ rows) =
      IsStored config (clock 0) (times 0) k sm row
      × AllStored config (λ i. clock (i + 1)) (λ i. times (i + 1)) m rows
  AllStored config clock times _ _ = ⊥

module _ {F T : Type 0} ⦃f : Double F⦄ where
  -- the statements that one measurement of a host leads to
  abbrev pub deliver :
      {N S : Type 0}
      → (ℤ → Option T)
      → ℤ
      → AppConfig
      → Pnet
      → Prober
      → Moment
      → Parser N S F
      → World
      → Clients
      → ℕ
      → Run (List (Statement F T))
  deliver datetime experiment_id config pnet probe at p w clients n = do
    (p', events) ← step config pnet probe at p measurement_tick
    (clients', effects) ←
        start_event_loop probe (map (λ (e : ClientHandlerEvent F). (w, e)) events) clients
    let streamed =
        (stream_data_msg (refusals n ++ true ∷ []) true (map message (broadcasts effects))).2
    let passed = (client_stream (map taken streamed)).0
    ok (run_server datetime experiment_id (map received passed)).0

  -- the rows of the links, and behind them those of their gaps, if gaps are to be sent
  pub record Delivered (datetime : ℤ → Option T) (config : AppConfig) (experiment_id : ℤ)
      (clock : ℕ → Readings) (times : ℕ → T) (links : HashMap IpPair (StreamManager F))
      (rows : List (Row F T)) : Type 0 where
    pub states : List (Row F T)
    pub all_stored : AllStored experiment_id config clock times links states
    -- the messages
    pub link_states : List (LinkStateProto F)
    pub rtts : List (RttMessage F)
    pub pgm_dps : List (PgmDps F)
    pub described : AllDescribed config clock links link_states rtts pgm_dps
    pub rows_are :
        rows
        ≡ states
          ++ (if config.server.send_pgm_dps
              then flat_map (gap_rows datetime experiment_id) pgm_dps
              else [])
