-- ===== src/Scheduler/Database/Expected.antt =====
-- The rows that an upload is to store.
use Prim.Native.String.{String}
use network_listener.Prelude.{Option, none, some, List, [], ◌∷◌, ◌++◌, map}
use network_listener.Prelude.Int.{ℤ, pos, as_i64}
use network_listener.Packet.Ip.{IpAddr}
use network_listener.Tracking.LinkState.{LinkStateProto, PgmDp, PgmDps, Rtt, RttMessage}
use network_listener.Scheduler.Throughput.{ThroughputDp}
use network_listener.Scheduler.Database.{Value, word, addr, float, int, time}
use network_listener.Scheduler.Database.Rows.{Row}

abbrev pub flat_map : {A B : Type 0} → (A → List B) → List A → List B
flat_map f [] = []
flat_map f (x ∷ xs) = f x ++ flat_map f xs

-- nothing, where the time cannot be converted
abbrev pub when_some : {T B : Type 0} → Option T → (T → List B) → List B
when_some none rows = []
when_some (some ts) rows = rows ts

module _ {F T : Type 0} where
  -- a row with these values for its columns
  abbrev pub plain_row : String → List (String × Value F T) → Row F T
  plain_row name fields = record {
    table = some name;
    fields = map (λ (f : String × Value F T). (f.0, some f.1)) fields;
    bound = map (λ (f : String × Value F T). some f.1) fields;
  }

  -- a row that belongs to a link: its two addresses find the link, or make it
  abbrev pub link_row : String → Option IpAddr → Option IpAddr → List (String × Value F T) → Row F T
  link_row name sender receiver fields = record (plain_row name fields) {
    bound =
        some (addr sender)
        ∷ some (addr receiver)
        ∷ some (addr sender)
        ∷ some (addr receiver)
        ∷ map (λ (f : String × Value F T). some f.1) fields;
  }

  module _ (datetime : ℤ → Option T) (experiment_id : ℤ) where
    abbrev pub state_fields : LinkStateProto F → T → List (String × Value F T)
    state_fields ls ts =
        ("thp_in", float ls.thp_in)
        ∷ ("thp_out", float ls.thp_out)
        ∷ ("bw", float ls.bw)
        ∷ ("abw", float ls.abw)
        ∷ ("latency", float ls.latency)
        ∷ ("delay", float ls.delay)
        ∷ ("jitter", float ls.jitter)
        ∷ ("loss", float ls.loss)
        ∷ ("time", time ts)
        ∷ ("experiment_id", int experiment_id)
        ∷ []

    abbrev pub state_row : LinkStateProto F → T → List (Row F T)
    state_row ls ts = link_row "link_state" ls.sender_ip ls.receiver_ip (state_fields ls ts) ∷ []

    abbrev pub trip_fields : Rtt F → T → List (String × Value F T)
    trip_fields rtt ts =
        ("rtt", float rtt.rtt) ∷ ("time", time ts) ∷ ("experiment_id", int experiment_id) ∷ []

    abbrev pub trip_row : RttMessage F → Rtt F → T → List (Row F T)
    trip_row msg rtt ts =
        link_row "rtt" (some msg.sender_ip) (some msg.receiver_ip) (trip_fields rtt ts) ∷ []

    abbrev pub gap_fields : T → PgmDp F → List (String × Value F T)
    gap_fields ts dp =
        ("time", time ts)
        ∷ ("gin", float dp.gin)
        ∷ ("gout", float dp.gout)
        ∷ ("len", int dp.len)
        ∷ ("num_acked", int dp.num_acked)
        ∷ ("experiment_id", int experiment_id)
        ∷ []

    abbrev pub gap_row : PgmDps F → T → PgmDp F → Row F T
    gap_row msg ts dp =
        link_row "pgm" (some msg.sender_ip) (some msg.receiver_ip) (gap_fields ts dp)

    abbrev pub thput_row : ThroughputDp F → T → List (Row F T)
    thput_row dp ts =
        plain_row "throughput" (
          ("node1", word dp.node1)
          ∷ ("iface1", word dp.iface1)
          ∷ ("ip41", word dp.ip41)
          ∷ ("node2", word dp.node2)
          ∷ ("iface2", word dp.iface2)
          ∷ ("ip42", word dp.ip42)
          ∷ ("throughput", float dp.throughput)
          ∷ ("time", time ts)
          ∷ ("experiment_id", int experiment_id)
          ∷ [])
        ∷ []

    abbrev pub state_rows : LinkStateProto F → List (Row F T)
    state_rows ls = when_some (datetime (pos ls.timestamp)) (state_row ls)

    abbrev pub trip_rows : RttMessage F → Rtt F → List (Row F T)
    trip_rows msg rtt = when_some (datetime (pos rtt.timestamp)) (trip_row msg rtt)

    abbrev pub gap_rows : PgmDps F → List (Row F T)
    gap_rows msg = when_some (datetime (pos msg.timestamp)) (λ ts. map (gap_row msg ts) msg.pgm_dp)

    abbrev pub thput_rows : ThroughputDp F → List (Row F T)
    thput_rows dp = when_some (datetime (as_i64 dp.timestamp)) (thput_row dp)
