-- ===== src/Tests/Managers.antt =====
-- Registries and stream managers at concrete inputs, with millionths for floats.
use network_listener.Prelude.{
  ℕ, ◌+◌, ◌-◌, ◌≤◌, ◌≡◌, refl, true, none, some, [], ◌∷◌, ◌++◌, length, All, Returns, u32, arith,
  from_secs,
}
use network_listener.Prelude.Double.{micro_double}
use network_listener.Prelude.HashMap
use network_listener.Prelude.HashMap.{HashMap, Prober}
use network_listener.Packet.Direction.{incoming, outgoing}
use network_listener.Tracking.Burst.{Acked, Burst}
use network_listener.Tracking.Burst.Measures.{IsGroup}
use network_listener.Tracking.StreamId.{StreamKey, key_from_packet, stream_key_hashed}
use network_listener.Tracking.Tracker.{Tracker, TrackerState}
use network_listener.Tracking.TcpTracker
use network_listener.Tracking.TcpTracker.Routing.{new-IsValid}
use network_listener.Tracking.StreamManager.{StreamManager, record_packet, periodic}
use network_listener.Tracking.StreamManager.Recording.{
  IsSoundManager, bytes_of, record_packet_total,
}
use network_listener.Tracking.StreamManager.Flushing.{IsRecent, Took, periodic_total}
use network_listener.Registry.PacketRegistry.{PacketRegistry, extend}
use network_listener.Registry.PacketRegistry.Extending.{burst_samples, group_count, extend_lem}
use network_listener.Tests.{sent_datum, data_packet}

abbrev registry : PacketRegistry ℕ
registry = record {
  rtts = [];
  sum_rtt = 0;
  rtt_count = 0;
  burst_thput = [];
  pgm_estimator = record { dps = [] };
  smallest_rtt = 1000000000000000000;
  smallest_rtt_time = 0;
  retransmissions = 0;
}

abbrev group : Acked
group = record {
  acked_packets = sent_datum ∷ [];
  ack_time = from_secs 6;
  first_sent_time = some (from_secs 4);
  last_sent_time = from_secs 5;
  total_length = 154;
}

abbrev burst : Burst
burst = Burst.tcp (record { packets = group ∷ group ∷ [] })

group-IsGroup_lem : IsGroup group
group-IsGroup_lem = record { some_packet = omega arith; length_kept = refl }

extend_lem_example : Returns (extend registry burst) λ r'.
    (r'.rtts ≡ [] ++ burst_samples burst)
    × (length r'.burst_thput ≡ 0 + 1)
    × (r'.rtt_count ≡ u32 (length r'.rtts))
    × (length r'.pgm_estimator.dps ≤ 0 + (group_count burst - 1))
extend_lem_example = extend_lem registry burst (group-IsGroup_lem, (group-IsGroup_lem, tt)) refl

-- every search comes to every entry
abbrev probe_all : Prober
probe_all = λ v w. true

abbrev manager : StreamManager ℕ
manager = record {
  streams = [];
  sent = registry;
  received = registry;
  thput = 0;
  last_iperf = none;
  bytes_sent = 4294967290;
  bytes_received = 7;
}

manager-IsSoundManager : IsSoundManager manager
manager-IsSoundManager = record { streams_sound = tt; sent_counted = refl; received_counted = refl }

record_packet_total_example : Returns (record_packet probe_all manager data_packet) λ m'.
    IsSoundManager m'
    × (m'.bytes_sent ≡ u32 (4294967290 + bytes_of outgoing outgoing 154))
    × (m'.bytes_received ≡ u32 (7 + bytes_of incoming outgoing 154))
    × (length m'.streams
        ≡ 0 + HashMap.grows (HashMap.get probe_all (key_from_packet data_packet) manager.streams))
record_packet_total_example =
    record_packet_total probe_all manager data_packet manager-IsSoundManager (omega arith)
      (omega arith)

-- one connection, last heard of 10 s after the epoch
abbrev pub connected : StreamManager ℕ
connected = record manager {
  streams =
      (
        record { ports = record { local = some 40000; remote = some 443 }; protocol = 6 },
        record {
          last_registered = from_secs 10;
          protocol = 6;
          state = TrackerState.tcp TcpTracker.new;
        },
      )
      ∷ [];
}

pub connected-IsSoundManager : IsSoundManager connected
connected-IsSoundManager = record {
  streams_sound = (new-IsValid, tt);
  sent_counted = refl;
  received_counted = refl;
}

periodic_total_example : Returns (periodic (from_secs 31) connected) λ m'.
    IsSoundManager m'
    × All (λ (e : StreamKey × Tracker). IsRecent (from_secs 31) e.1) m'.streams
    × Took registry 1 m'.sent
    × Took registry 1 m'.received
    × (m'.bytes_sent ≡ 4294967290)
    × (m'.bytes_received ≡ 7)
periodic_total_example =
    periodic_total (from_secs 31) connected connected-IsSoundManager (omega arith, tt)
