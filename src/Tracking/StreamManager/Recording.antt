-- ===== src/Tracking/StreamManager/Recording.antt =====
-- Recording a packet: no panic, the invariant, the byte counters.
use network_listener.Prelude.{
  ℕ, ◌+◌, ◌≡◌, refl, Option, none, some, length, All, Returns, u32, arith, SystemTime, ◌∙◌, ◌<◌,
}
use network_listener.Prelude.Double.{Double}
use network_listener.Prelude.HashMap
use network_listener.Prelude.HashMap.{Prober, FindsSame, hit}
use network_listener.Packet.Direction.{Direction, incoming, outgoing}
use network_listener.Packet.Transport.{get_ip_proto}
use network_listener.Packet.Parsed.{ParsedPacket}
use network_listener.Tracking.Burst.{Burst}
use network_listener.Tracking.StreamId.{StreamKey, key_from_packet, stream_key_hashed}
use network_listener.Tracking.Tracker
use network_listener.Tracking.Tracker.{Tracker, TrackerState, register_state}
use network_listener.Registry.PacketRegistry
use network_listener.Registry.PacketRegistry.{PacketRegistry}
use network_listener.Registry.PacketRegistry.Extending.{extend_lem}
use network_listener.Tracking.Tracker.Registering.{
  HasSoundState, IsWholeRet, default-IsSound, register_tracker_total,
}
use network_listener.Tracking.StreamManager.{
  StreamManager, count_bytes, add_burst, tracker_or_new, record_packet, new,
}

tracker_or_new-HasSoundState :
    (found : Option Tracker) (packet : ParsedPacket)
    → ((t : Tracker) → found ≡ some t → HasSoundState t)
    → HasSoundState (tracker_or_new found packet)
unfolding tracker_or_new Tracker.new
tracker_or_new-HasSoundState none packet h = default-IsSound (get_ip_proto packet.transport)
tracker_or_new-HasSoundState (some t) packet h = h t refl

-- the lengths of the packets of a direction
abbrev pub bytes_of : Direction → Direction → ℕ → ℕ
bytes_of incoming incoming n = n
bytes_of outgoing outgoing n = n
bytes_of _ _ n = 0

module _ {F : Type 0} ⦃f : Double F⦄ where
  abbrev pub IsCounted : PacketRegistry F → Type 0
  IsCounted r = r.rtt_count ≡ u32 (length r.rtts)

  pub record IsSoundManager (m : StreamManager F) : Type 0 where
    pub streams_sound : All (λ (e : StreamKey × Tracker). HasSoundState e.1) m.streams
    pub sent_counted : IsCounted m.sent
    pub received_counted : IsCounted m.received

  pub new-IsSoundManager : (now : SystemTime) → IsSoundManager (new now)
  unfolding new PacketRegistry.new
  new-IsSoundManager now = record {
    streams_sound = tt;
    sent_counted = refl;
    received_counted = refl;
  }

  add_burst_total :
      (m : StreamManager F) (ret : Option (Burst × Direction))
      → IsSoundManager m
      → IsWholeRet ret
      → Returns (add_burst m ret) λ m'.
        IsSoundManager m'
        × (m'.streams ≡ m.streams)
        × (m'.bytes_sent ≡ m.bytes_sent)
        × (m'.bytes_received ≡ m.bytes_received)
  unfolding add_burst
  add_burst_total m none v w = (m, refl, (v, refl, refl, refl))
  add_burst_total m (some (burst, incoming)) v w =
      let (r, run, (_, _, counted, _)) = extend_lem m.received burst w v.received_counted in
      (
        record m { received = r },
        rw run,
        (
          record {
            streams_sound = v.streams_sound;
            sent_counted = v.sent_counted;
            received_counted = counted;
          },
          refl,
          refl,
          refl,
        ),
      )
  add_burst_total m (some (burst, outgoing)) v w =
      let (r, run, (_, _, counted, _)) = extend_lem m.sent burst w v.sent_counted in
      (
        record m { sent = r },
        rw run,
        (
          record {
            streams_sound = v.streams_sound;
            sent_counted = counted;
            received_counted = v.received_counted;
          },
          refl,
          refl,
          refl,
        ),
      )

  count_bytes_lem :
      (m : StreamManager F) (d : Direction) (n : ℕ)
      → m.bytes_sent < 4294967296
      → m.bytes_received < 4294967296
      → ((count_bytes m d n).bytes_sent ≡ u32 (m.bytes_sent + bytes_of outgoing d n))
        × ((count_bytes m d n).bytes_received ≡ u32 (m.bytes_received + bytes_of incoming d n))
        × ((count_bytes m d n).streams ≡ m.streams)
        × ((count_bytes m d n).sent ≡ m.sent)
        × ((count_bytes m d n).received ≡ m.received)
  unfolding count_bytes
  count_bytes_lem m incoming n hs hr = (omega arith, refl, refl, refl, refl)
  count_bytes_lem m outgoing n hs hr = (refl, omega arith, refl, refl, refl)

  -- Recording a packet on a sound manager whose byte counters fit their width never panics and
  -- keeps it sound. The length of the packet is added to the byte counter of its direction, modulo
  -- its width, and to no other; at most one stream is added, and only if the key of the packet was
  -- not found.
  pub record_packet_total :
      (probe : Prober) (m : StreamManager F) (packet : ParsedPacket)
      → IsSoundManager m
      → m.bytes_sent < 4294967296
      → m.bytes_received < 4294967296
      → Returns (record_packet probe m packet) λ m'.
        IsSoundManager m'
        × (m'.bytes_sent
            ≡ u32 (m.bytes_sent + bytes_of outgoing packet.direction packet.total_length))
        × (m'.bytes_received
            ≡ u32 (m.bytes_received + bytes_of incoming packet.direction packet.total_length))
        × (length m'.streams
            ≡ length m.streams
              + HashMap.grows (HashMap.get probe (key_from_packet packet) m.streams))
  unfolding record_packet
  record_packet_total probe m packet v hs hr =
      let (bs, br, same, same_sent, same_received) =
        count_bytes_lem m packet.direction packet.total_length hs hr in
      let counted = count_bytes m packet.direction packet.total_length in
      let k = key_from_packet packet in
      let found = HashMap.get probe k counted.streams in
      let sound : All (λ (e : StreamKey × Tracker). HasSoundState e.1) counted.streams =
        rw same v.streams_sound in
      let sound_found =
        tracker_or_new-HasSoundState found packet
          (λ t e. HashMap.get-All probe HasSoundState k counted.streams sound e) in
      let (r, run, (s, whole, _)) =
        register_tracker_total (tracker_or_new found packet) packet sound_found in
      let stored = record counted { streams = HashMap.insert probe k r.0 counted.streams } in
      let stored_sound : IsSoundManager stored = record {
        streams_sound = HashMap.insert-All probe HasSoundState k r.0 counted.streams s sound;
        sent_counted = rw same_sent v.sent_counted;
        received_counted = rw same_received v.received_counted;
      } in
      let (m', run', (sound', st, b1, b2)) = add_burst_total stored r.1 stored_sound whole in
      (
        m',
        rw (run, run'),
        (
          sound',
          b1 ∙ bs,
          b2 ∙ br,
          rw (st, HashMap.length-insert probe k r.0 counted.streams, same) refl,
        ),
      )
