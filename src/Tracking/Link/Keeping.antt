-- ===== src/Tracking/Link/Keeping.antt =====
-- Reports and iperf results keep the links sound.
use network_listener.Prelude.{ℕ, ◌+◌, refl, [], ◌∷◌, arith, SystemTime}
use network_listener.Prelude.Double.{Double}
use network_listener.Prelude.HashMap
use network_listener.Prelude.HashMap.{HashMap, Prober}
use network_listener.Tracking.StreamId.{IpPair, ip_pair_hashed}
use network_listener.Tracking.StreamManager
use network_listener.Tracking.StreamManager.{StreamManager}
use network_listener.Tracking.Link
use network_listener.Tracking.Link.{LinkManager, Readings}
use network_listener.Tracking.Link.Inserting.{IsSoundLink, AllSound, manager_or_new-IsSoundLink}
use network_listener.Tracking.Link.Reporting.{IsReset, AllReset}
use network_listener.Registry.PacketRegistry
use network_listener.Registry.PacketRegistry.{RegressionType}

reset-IsSoundLink :
    {F : Type 0} ⦃f : Double F⦄ (at : Readings) (sm sm' : StreamManager F)
    → IsSoundLink sm
    → IsReset at sm sm'
    → IsSoundLink sm'
unfolding PacketRegistry.new
reset-IsSoundLink at sm sm' v r = record {
  sound = record {
    streams_sound = rw r.streams_kept v.sound.streams_sound;
    sent_counted = rw r.sent_new refl;
    received_counted = rw r.received_new refl;
  };
  sent_fits = rw r.sent_zero (omega arith);
  received_fits = rw r.received_zero (omega arith);
}

pub reset-AllSound :
    {F : Type 0} ⦃f : Double F⦄ (clock : ℕ → Readings)
    (links links' : HashMap IpPair (StreamManager F))
    → AllSound links
    → AllReset clock links links'
    → AllSound links'
reset-AllSound clock [] [] a r = tt
reset-AllSound clock ((k, sm) ∷ m) ((k', sm') ∷ m') (v, a) (_, r, rs) =
    (reset-IsSoundLink (clock 0) sm sm' v r, reset-AllSound (λ i. clock (i + 1)) m m' a rs)
reset-AllSound clock [] (_ ∷ _) a r = absurd r
reset-AllSound clock (_ ∷ _) [] a r = absurd r

measured-IsSoundLink :
    {F : Type 0} ⦃f : Double F⦄ (instant : ℕ) (sm : StreamManager F) (bps : F)
    → IsSoundLink sm
    → IsSoundLink (StreamManager.record_iperf_result instant sm bps)
unfolding StreamManager.record_iperf_result
measured-IsSoundLink instant sm bps v = record {
  sound = record {
    streams_sound = v.sound.streams_sound;
    sent_counted = v.sound.sent_counted;
    received_counted = v.sound.received_counted;
  };
  sent_fits = v.sent_fits;
  received_fits = v.received_fits;
}

pub insert_iperf_result-AllSound :
    {F : Type 0} ⦃f : Double F⦄ (probe : Prober) (now : SystemTime) (instant : ℕ)
    (m : LinkManager F) (k : IpPair) (bps : F)
    → AllSound m.links
    → AllSound (Link.insert_iperf_result probe now instant m k bps).links
unfolding Link.insert_iperf_result
insert_iperf_result-AllSound probe now instant m k bps sound =
    let found = HashMap.get probe k m.links in
    let v =
      manager_or_new-IsSoundLink now found
        (λ sm e. HashMap.get-All probe IsSoundLink k m.links sound e) in
    HashMap.insert-All probe IsSoundLink k
      (StreamManager.record_iperf_result instant (Link.manager_or_new now found) bps) m.links
      (measured-IsSoundLink instant (Link.manager_or_new now found) bps v) sound
