-- ===== src/Tracking/Link/Rates.antt =====
-- What a link reports of the bytes that its packets carried in a measurement window.
use network_listener.Prelude.{
  ℕ, ◌+◌, ◌≡◌, refl, ◌∙◌, List, [], ◌∷◌, Run, ok, ◌>>=◌, Returns, u32, sum_by, arith,
}
use network_listener.Prelude.Double.{Double}
use network_listener.Prelude.HashMap.{Prober}
use network_listener.Config.{AppConfig}
use network_listener.Packet.Direction.{Direction, incoming, outgoing}
use network_listener.Packet.Parsed.{ParsedPacket}
use network_listener.Tracking.StreamId.{IpPair}
use network_listener.Tracking.StreamManager.{StreamManager, record_packet}
use network_listener.Tracking.StreamManager.Recording.{bytes_of, record_packet_total}
use network_listener.Registry.Estimation.Filtering.{PositiveIsNumber}
use network_listener.Registry.PacketRegistry.{RegressionType}
use network_listener.Tracking.LinkState.{LinkStateProto, RttMessage, PgmDps}
use network_listener.Tracking.Link.{Readings, report}
use network_listener.Tracking.Link.Inserting.{IsSoundLink}
use network_listener.Tracking.Link.Reporting.{report_total}

-- the bytes of the packets of one direction
abbrev pub bytes_in : Direction → List ParsedPacket → ℕ
bytes_in d packets = sum_by (λ p. bytes_of d p.direction p.total_length) packets

wrapped : (a x rest : ℕ) → u32 (u32 (a + x) + rest) ≡ u32 (a + (x + rest))
wrapped a x rest = omega arith

from_zero : (b start n : ℕ) → b ≡ u32 (start + n) → start ≡ 0 → b ≡ u32 n
from_zero b start n e z = omega arith

module _ {F : Type 0} ⦃f : Double F⦄ where
  -- the packets of a link, one after another
  abbrev pub record_all : Prober → StreamManager F → List ParsedPacket → Run (StreamManager F)
  record_all probe m [] = ok m
  record_all probe m (packet ∷ rest) = do
    next ← record_packet probe m packet
    record_all probe next rest

  record_all_total :
      (probe : Prober) (packets : List ParsedPacket) (m : StreamManager F)
      → IsSoundLink m
      → Returns (record_all probe m packets) λ m'.
        IsSoundLink m'
        × (m'.bytes_sent ≡ u32 (m.bytes_sent + bytes_in outgoing packets))
        × (m'.bytes_received ≡ u32 (m.bytes_received + bytes_in incoming packets))
  record_all_total probe [] m v =
      (m, refl, (v, omega (arith, v.sent_fits), omega (arith, v.received_fits)))
  record_all_total probe (packet ∷ rest) m v =
      let (next, run, (s, bs, br, _)) =
        record_packet_total probe m packet v.sound v.sent_fits v.received_fits in
      let sound : IsSoundLink next = record {
        sound = s;
        sent_fits = rw bs (omega arith);
        received_fits = rw br (omega arith);
      } in
      let (m', run', (v', es, er)) = record_all_total probe rest next sound in
      (m', rw (run, run') refl, (v', es ∙ rw bs (wrapped _ _ _), er ∙ rw br (wrapped _ _ _)))

  -- a window: its packets, and then its report
  abbrev pub window :
      Prober
      → AppConfig
      → Readings
      → IpPair
      → StreamManager F
      → List ParsedPacket
      → Run ((LinkStateProto F × RttMessage F × PgmDps F) × StreamManager F)
  window probe config at k m packets = do m' ← record_all probe m packets; report config at k m'

  -- Where no value above zero is a NaN, and with ordinary least squares: if both byte counters of a
  -- sound link are zero, as each report leaves them, and any packets are recorded, the next report
  -- gives for each direction the sum of the lengths of its packets, modulo the counters' width, over
  -- the length of the window, and leaves the counters at zero.
  pub window_total :
      (probe : Prober)
      → PositiveIsNumber F
      → (config : AppConfig) (at : Readings) (k : IpPair) (m : StreamManager F)
        (packets : List ParsedPacket)
      → config.client.regression_type ≡ RegressionType.simple
      → IsSoundLink m
      → m.bytes_sent ≡ 0
      → m.bytes_received ≡ 0
      → Returns (window probe config at k m packets) λ ((link, rtt, pgm), m'').
        (link.thp_in
          ≡ f.div
              (f.of_nat (u32 (bytes_in incoming packets)))
              (f.as_secs config.client.measurement_window))
        × (link.thp_out
            ≡ f.div
                (f.of_nat (u32 (bytes_in outgoing packets)))
                (f.as_secs config.client.measurement_window))
        × (m''.bytes_sent ≡ 0)
        × (m''.bytes_received ≡ 0)
  window_total probe ieee config at k m packets simple v zs zr =
      let (m', run, (_, es, er)) = record_all_total probe packets m v in
      let (((link, rtt, pgm), m''), run', (described, reset)) =
        report_total ieee config at k m' simple in
      (
        ((link, rtt, pgm), m''),
        rw (run, run') refl,
        (
          described.rate_in ∙ rw (from_zero _ _ _ er zr) refl,
          described.rate_out ∙ rw (from_zero _ _ _ es zs) refl,
          reset.sent_zero,
          reset.received_zero,
        ),
      )
