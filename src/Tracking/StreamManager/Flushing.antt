-- ===== src/Tracking/StreamManager/Flushing.antt =====
-- `StreamManager::periodic`: what it flushes, what it keeps, and when it panics.
use network_listener.Prelude.{
  ℕ, ◌+◌, ◌<◌, ◌≡◌, refl, [], ◌∷◌, length, All, panic, Returns, arith, SystemTime, from_secs,
  if◌then◌else◌, Bool-cases, inl, inr,
}
use network_listener.Prelude.Double.{Double}
use network_listener.Prelude.HashMap.{HashMap}
use network_listener.Tracking.Burst.{no_burst}
use network_listener.Tracking.StreamId.{StreamKey}
use network_listener.Tracking.TcpStream.{TcpStream}
use network_listener.Tracking.TcpStream.Registering.{IsWellFormed}
use network_listener.Tracking.TcpTracker
use network_listener.Tracking.UdpTracker
use network_listener.Tracking.GenericTracker
use network_listener.Tracking.Tracker
use network_listener.Tracking.Tracker.{Tracker, TrackerState}
use network_listener.Registry.PacketRegistry.{PacketRegistry}
use network_listener.Registry.PacketRegistry.Extending.{IsWholeTcp, extend_lem}
use network_listener.Tracking.StreamManager.{
  StreamManager, retain_active, flush_stream, flush_streams, periodic,
}
use network_listener.Tracking.StreamManager.Clock.{
  AllPast, SameTimes, HasAhead, is_active_lem, retain_active-ahead, SameTimes-AllPast,
  SameTimes-HasAhead,
}
use network_listener.Tracking.Tracker.Registering.{IsSound, HasSoundState}
use network_listener.Tracking.StreamManager.Recording.{IsCounted, IsSoundManager}

-- nothing is left in the bursts of a flow
abbrev IsDrained : TrackerState → Type 0
IsDrained (TrackerState.tcp t) =
    (t.sent.cur_burst.packets ≡ []) × (t.received.cur_burst.packets ≡ [])
IsDrained (TrackerState.udp t) = (t.burst_in ≡ []) × (t.burst_out ≡ [])
IsDrained (TrackerState.other t) = (t.burst_in ≡ []) × (t.burst_out ≡ [])

abbrev IsFlushed : Tracker → Type 0
IsFlushed t = HasSoundState t × IsDrained t.state

abbrev pub IsRecent : SystemTime → Tracker → Type 0
IsRecent now t = HasSoundState t × IsDrained t.state × (now < t.last_registered + from_secs 20)

without_burst-IsWellFormed :
    (s : TcpStream) → IsWellFormed s → IsWellFormed (TcpTracker.without_burst s)
unfolding TcpTracker.without_burst no_burst
without_burst-IsWellFormed s w = record { ordered = w.ordered; grouped = tt }

take_bursts_lem :
    (s : TrackerState)
    → IsSound s
    → let ((first, second), s') = Tracker.take_bursts s in
      IsSound s' × IsDrained s' × IsWholeTcp first × IsWholeTcp second
unfolding Tracker.take_bursts TcpTracker.take_bursts UdpTracker.take_bursts
    GenericTracker.take_bursts TcpTracker.without_burst no_burst
take_bursts_lem (TrackerState.tcp t) v = (
  record {
    sent_valid = without_burst-IsWellFormed t.sent v.sent_valid;
    received_valid = without_burst-IsWellFormed t.received v.received_valid;
  },
  (refl, refl),
  v.sent_valid.grouped,
  v.received_valid.grouped,
)
take_bursts_lem (TrackerState.udp t) v = (tt, (refl, refl), tt, tt)
take_bursts_lem (TrackerState.other t) v = (tt, (refl, refl), tt, tt)

retain_active_lem :
    (now : SystemTime) (m : HashMap StreamKey Tracker)
    → All (λ (e : StreamKey × Tracker). IsFlushed e.1) m
    → AllPast now m
    → Returns (retain_active now m) λ m'. All (λ (e : StreamKey × Tracker). IsRecent now e.1) m'
unfolding retain_active
retain_active_lem now [] a past = ([], refl, tt)
retain_active_lem now ((k, t) ∷ rest) ((sound, drained), a) (p, past) =
    let (b, run, recent) = is_active_lem now t p in
    let (m', run', all) = retain_active_lem now rest a past in
    (
      (if b then (k, t) ∷ m' else m'),
      rw (run, run'),
      elim (Bool-cases b) [
        | inl active ↦ rw active ((sound, drained, recent active), all)
        | inr idle ↦ rw idle all
      ],
    )

recent_sound :
    (now : SystemTime) (m : HashMap StreamKey Tracker)
    → All (λ (e : StreamKey × Tracker). IsRecent now e.1) m
    → All (λ (e : StreamKey × Tracker). HasSoundState e.1) m
recent_sound now [] a = tt
recent_sound now ((k, t) ∷ rest) ((sound, _, _), a) = (sound, recent_sound now rest a)

module _ {F : Type 0} ⦃f : Double F⦄ where
  -- a registry that has taken in `n` more bursts
  abbrev pub Took : PacketRegistry F → ℕ → PacketRegistry F → Type 0
  Took r n r' = IsCounted r' × (length r'.burst_thput ≡ length r.burst_thput + n)

  flush_stream_lem :
      (sent received : PacketRegistry F) (t : Tracker)
      → IsCounted sent
      → IsCounted received
      → HasSoundState t
      → Returns (flush_stream sent received t) λ (t', sent', received').
        IsFlushed t'
        × (t'.last_registered ≡ t.last_registered)
        × Took sent 1 sent'
        × Took received 1 received'
  unfolding flush_stream
  flush_stream_lem sent received t cs cr v =
      let ((first, second), state) = Tracker.take_bursts t.state in
      let (sound, drained, w1, w2) = take_bursts_lem t.state v in
      let (sent', run, (_, n, c, _)) = extend_lem sent first w1 cs in
      let (received', run', (_, n', c', _)) = extend_lem received second w2 cr in
      (
        (record t { state = state }, sent', received'),
        rw (run, run'),
        ((sound, drained), refl, (c, n), (c', n')),
      )

  flush_streams_lem :
      (sent received : PacketRegistry F) (m : HashMap StreamKey Tracker)
      → IsCounted sent
      → IsCounted received
      → All (λ (e : StreamKey × Tracker). HasSoundState e.1) m
      → Returns (flush_streams sent received m) λ (m', sent', received').
        All (λ (e : StreamKey × Tracker). IsFlushed e.1) m'
        × SameTimes m m'
        × Took sent (length m) sent'
        × Took received (length m) received'
  unfolding flush_streams
  flush_streams_lem sent received [] cs cr v =
      (_, refl, (tt, tt, (cs, omega arith), (cr, omega arith)))
  flush_streams_lem sent received ((k, t) ∷ rest) cs cr (v, vs) =
      let ((t', sent', received'), run, (flushed, time, (cs', n), (cr', o))) =
        flush_stream_lem sent received t cs cr v in
      let ((m', sent'', received''), run', (all, times, (cs'', n'), (cr'', o'))) =
        flush_streams_lem sent' received' rest cs' cr' vs in
      (
        ((k, t') ∷ m', sent'', received''),
        rw (run, run'),
        ((flushed, all), (time, times), (cs'', omega (arith, n, n')), (cr'', omega (arith, o, o'))),
      )

  -- On a sound manager none of whose streams has its last packet ahead of the clock, the periodic
  -- pass ends normally and keeps the manager sound. It hands one burst of every stream to each
  -- registry; every stream that is kept is drained and had a packet less than 20 seconds ago; the
  -- byte counters stay as they are.
  pub periodic_total :
      (now : SystemTime) (m : StreamManager F)
      → IsSoundManager m
      → AllPast now m.streams
      → Returns (periodic now m) λ m'.
        IsSoundManager m'
        × All (λ (e : StreamKey × Tracker). IsRecent now e.1) m'.streams
        × Took m.sent (length m.streams) m'.sent
        × Took m.received (length m.streams) m'.received
        × (m'.bytes_sent ≡ m.bytes_sent)
        × (m'.bytes_received ≡ m.bytes_received)
  unfolding periodic
  periodic_total now m v past =
      let ((flushed, sent', received'), run, (all, times, took, took')) =
        flush_streams_lem m.sent m.received m.streams v.sent_counted v.received_counted
          v.streams_sound in
      let (streams', run', recent) =
        retain_active_lem now flushed all (SameTimes-AllPast now m.streams flushed times past) in
      (
        record m { streams = streams'; sent = sent'; received = received' },
        rw (run, run'),
        (
          record {
            streams_sound = recent_sound now streams' recent;
            sent_counted = took.0;
            received_counted = took'.0;
          },
          recent,
          took,
          took',
          refl,
          refl,
        ),
      )

  -- On a sound manager, one stream whose last packet lies ahead of the clock is enough for the
  -- periodic pass to panic.
  pub periodic-ahead :
      (now : SystemTime) (m : StreamManager F)
      → IsSoundManager m
      → HasAhead now m.streams
      → periodic now m ≡ panic
  unfolding periodic
  periodic-ahead now m v h =
      let ((flushed, _, _), run, (_, times, _, _)) =
        flush_streams_lem m.sent m.received m.streams v.sent_counted v.received_counted
          v.streams_sound in
      let ahead = SameTimes-HasAhead now m.streams flushed times h in
      rw (run, retain_active-ahead now flushed ahead)
