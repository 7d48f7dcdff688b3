-- ===== src/Tracking/StreamManager.antt =====
-- src/listener/tracking/stream_manager.rs. The clock is an argument; a float is a `Double`.
use network_listener.Prelude.{
  ℕ, ◌+◌, ◌-◌, Bool, true, false, Option, none, some, List, [], ◌∷◌, ltb, ◌==◌, if◌then◌else◌, Run,
  ok, panic, ◌>>=◌, u32, SystemTime, Duration, from_secs, duration_since, keep, map,
}
use network_listener.Prelude.Double.{Double}
use network_listener.Prelude.HashMap
use network_listener.Prelude.HashMap.{HashMap, Prober}
use network_listener.Packet.Direction.{Direction, incoming, outgoing}
use network_listener.Packet.Transport.{Protocol, get_ip_proto}
use network_listener.Packet.Parsed.{ParsedPacket}
use network_listener.Tracking.Burst.{Burst}
use network_listener.Tracking.StreamId.{StreamKey, key_from_packet, stream_key_hashed}
use network_listener.Tracking.Tracker
use network_listener.Tracking.Tracker.{Tracker}
use network_listener.Registry.PacketRegistry
use network_listener.Registry.PacketRegistry.{PacketRegistry}
pub mod Recording
pub mod Clock
pub mod Flushing

-- `Settings::TCP_STREAM_TIMEOUT`
abbrev tcp_stream_timeout : Duration
tcp_stream_timeout = from_secs 20

pub record StreamManager (F : Type 0) : Type 0 where
  pub streams : HashMap StreamKey Tracker
  pub sent : PacketRegistry F
  pub received : PacketRegistry F
  pub thput : F
  -- an `Instant`, in nanoseconds
  pub last_iperf : Option ℕ
  pub bytes_sent : ℕ
  pub bytes_received : ℕ

-- `or_insert_with`
unfoldable pub tracker_or_new : Option Tracker → ParsedPacket → Tracker
tracker_or_new none packet = Tracker.new packet.timestamp (get_ip_proto packet.transport)
tracker_or_new (some t) packet = t

active_for : Option Duration → Run Bool
active_for none = panic
active_for (some elapsed) = ok (ltb elapsed tcp_stream_timeout)

-- `elapsed().unwrap()` panics for a time that is still to come
unfoldable pub is_active : SystemTime → Tracker → Run Bool
unfolding active_for
is_active now t = active_for (duration_since now t.last_registered)

-- `retain`
unfoldable pub retain_active :
    SystemTime → HashMap StreamKey Tracker → Run (HashMap StreamKey Tracker)
retain_active now [] = ok []
retain_active now ((k, t) ∷ rest) = do
  active ← is_active now t
  rest' ← retain_active now rest
  ok (if active then (k, t) ∷ rest' else rest')

push_taken : Option Tracker → List Tracker → List Tracker
push_taken none taken = taken
push_taken (some t) taken = t ∷ taken

take_each :
    Prober → List StreamKey → HashMap StreamKey Tracker → List Tracker × HashMap StreamKey Tracker
unfolding push_taken
take_each probe [] streams = ([], streams)
take_each probe (k ∷ keys) streams =
    let (taken, rest) = take_each probe keys (HashMap.remove probe k streams) in
    (push_taken (HashMap.get probe k streams) taken, rest)

module _ {F : Type 0} ⦃f : Double F⦄ where
  unfoldable pub new : SystemTime → StreamManager F
  unfolding PacketRegistry.new
  new now = record {
    streams = [];
    sent = PacketRegistry.new now;
    received = PacketRegistry.new now;
    thput = f.of_nat 0;
    last_iperf = none;
    bytes_sent = 0;
    bytes_received = 0;
  }

  unfoldable pub record_iperf_result : ℕ → StreamManager F → F → StreamManager F
  record_iperf_result instant m bps = record m { thput = bps; last_iperf = some instant }

  unfoldable pub thput_since : ℕ → Duration → F → Option ℕ → F
  thput_since instant window thput none = f.of_nat 0
  thput_since instant window thput (some last_iperf) =
      if ltb window (instant - last_iperf) then thput else f.of_nat 0

  unfoldable pub tcp_thput : ℕ → Duration → StreamManager F → F
  unfolding thput_since
  tcp_thput instant measurement_window m =
      thput_since instant measurement_window m.thput m.last_iperf

  -- the byte counters
  unfoldable pub count_bytes : StreamManager F → Direction → ℕ → StreamManager F
  count_bytes m incoming n = record m { bytes_received = u32 (m.bytes_received + n) }
  count_bytes m outgoing n = record m { bytes_sent = u32 (m.bytes_sent + n) }

  -- a burst goes to the registry of its direction
  unfoldable pub add_burst : StreamManager F → Option (Burst × Direction) → Run (StreamManager F)
  add_burst m none = ok m
  add_burst m (some (burst, incoming)) = do
    r ← PacketRegistry.extend m.received burst
    ok (record m { received = r })
  add_burst m (some (burst, outgoing)) = do
    r ← PacketRegistry.extend m.sent burst
    ok (record m { sent = r })

  unfoldable pub record_packet : Prober → StreamManager F → ParsedPacket → Run (StreamManager F)
  record_packet probe m packet = do
    let counted = count_bytes m packet.direction packet.total_length
    let stream_id = key_from_packet packet
    (t, ret) ←
        Tracker.register_packet
          (tracker_or_new (HashMap.get probe stream_id counted.streams) packet) packet
    add_burst (record counted { streams = HashMap.insert probe stream_id t counted.streams }) ret

  unfoldable pub take_sent : StreamManager F → ℕ × StreamManager F
  take_sent m = (m.bytes_sent, record m { bytes_sent = 0 })

  unfoldable pub take_received : StreamManager F → ℕ × StreamManager F
  take_received m = (m.bytes_received, record m { bytes_received = 0 })

  -- the residual bursts of one stream, the first to the sent registry
  unfoldable pub flush_stream :
      PacketRegistry F
      → PacketRegistry F
      → Tracker
      → Run (Tracker × PacketRegistry F × PacketRegistry F)
  flush_stream sent received t = do
    let ((first, second), state) = Tracker.take_bursts t.state
    sent' ← PacketRegistry.extend sent first
    received' ← PacketRegistry.extend received second
    ok (record t { state = state }, sent', received')

  -- the loop over `values_mut`
  unfoldable pub flush_streams :
      PacketRegistry F
      → PacketRegistry F
      → HashMap StreamKey Tracker
      → Run (HashMap StreamKey Tracker × PacketRegistry F × PacketRegistry F)
  flush_streams sent received [] = ok ([], sent, received)
  flush_streams sent received ((k, t) ∷ rest) = do
    (t', sent', received') ← flush_stream sent received t
    (rest', sent'', received'') ← flush_streams sent' received' rest
    ok ((k, t') ∷ rest', sent'', received'')

  unfoldable pub periodic : SystemTime → StreamManager F → Run (StreamManager F)
  periodic now m = do
    (flushed, sent', received') ← flush_streams m.sent m.received m.streams
    streams' ← retain_active now flushed
    ok (record m { streams = streams'; sent = sent'; received = received' })

  unfoldable take_streams :
      Prober → StreamManager F → List StreamKey → List Tracker × StreamManager F
  unfolding take_each
  take_streams probe m keys =
      let (taken, rest) = take_each probe keys m.streams in (taken, record m { streams = rest })

  unfoldable get_streams : StreamManager F → Protocol → List Tracker
  get_streams m protocol =
      keep (λ (t : Tracker). t.protocol == protocol)
        (map (λ (e : StreamKey × Tracker). e.1) m.streams)
