-- ===== src/Scheduler/Database.antt =====
-- src/scheduler/db_util.rs: the statements that store measurements. `T` stands for the database's
-- time, which chrono makes of milliseconds where it can. A statement that fails is only reported, so
-- what the functions do is the list of statements that they execute, in their order.
use Prim.Native.String.{String}
use network_listener.Prelude.{
  ℕ, zero, suc, ◌+◌, Option, none, some, List, [], ◌∷◌, ◌++◌, map, length,
}
use network_listener.Prelude.Int.{ℤ, pos, as_i64}
use network_listener.Packet.Ip.{IpAddr}
use network_listener.Tracking.LinkState.{LinkStateProto, PgmDp, PgmDps, Rtt, RttMessage}
use network_listener.Scheduler.Throughput.{ThroughputDp}
pub mod Rows
pub mod Expected
pub mod Schema
pub mod Uploads

-- The text of a query by its parts: `param i` is "$" and the number, `column` and `table` names. White
-- space is not kept.
pub data Piece : Type 0 where
  text : String → Piece
  param : ℕ → Piece
  column : String → Piece
  table : String → Piece

abbrev pub Query : Type 0
Query = List Piece

-- a parameter; an address stands for its text
pub data Value (F T : Type 0) : Type 0 where
  word : String → Value F T
  addr : Option IpAddr → Value F T
  float : F → Value F T
  int : ℤ → Value F T
  time : T → Value F T

pub record Statement (F T : Type 0) : Type 0 where
  pub query : Query
  pub params : List (Value F T)

-- `i..i + n`
unfoldable pub range : ℕ → ℕ → List ℕ
range i zero = []
range i (suc n) = i ∷ range (i + 1) n

-- `join(", ")`
unfoldable pub join : Query → Query
join [] = []
join (p ∷ []) = p ∷ []
join (p ∷ q ∷ rest) = p ∷ text ", " ∷ join (q ∷ rest)

-- first the link is found or made, by the parameters 1 and 2
abbrev pub link_part : Query
link_part =
    text "WITH ins AS (INSERT INTO link(sender_ip, receiver_ip) VALUES ("
    ∷ param 1
    ∷ text ", "
    ∷ param 2
    ∷ text
        ") ON CONFLICT (sender_ip, receiver_ip) DO NOTHING RETURNING id), sel AS (SELECT id FROM ins UNION SELECT id FROM link WHERE sender_ip = "
    ∷ param 1
    ∷ text " AND receiver_ip = "
    ∷ param 2
    ∷ text ") INSERT INTO "
    ∷ []

unfoldable pub insert_query : String → List String → ℕ → Query
unfolding range join
insert_query name columns num_vals =
    link_part
    ++ table name ∷ text " (link_id, " ∷ join (map column columns)
    ++ text ") VALUES ((SELECT id FROM sel), " ∷ join (map param (range 3 num_vals))
    ++ text ")" ∷ []

throughput_query : List String → ℕ → Query
unfolding join range
throughput_query cols n =
    text "INSERT INTO " ∷ table "throughput" ∷ text " (" ∷ join (map column cols)
    ++ text ") VALUES (" ∷ join (map param (range 1 n))
    ++ text ")" ∷ []

module _ {F T : Type 0} where
  unfoldable pub insert_into :
      Option IpAddr → Option IpAddr → String → List String → List (Value F T) → Statement F T
  unfolding insert_query
  insert_into sender_ip receiver_ip name columns values = record {
    query = insert_query name columns (length values);
    params = addr sender_ip ∷ addr receiver_ip ∷ values;
  }

  -- the id is that of the row that was answered, if the query did not fail
  unfoldable get_and_insert_experiment : String → String → Option ℤ → Statement F T × Option ℤ
  get_and_insert_experiment experiment_name description row = (
    record {
      query =
          text "WITH ins AS (INSERT INTO experiment (name, description) VALUES ("
          ∷ param 1
          ∷ text ", "
          ∷ param 2
          ∷ text
              ") ON CONFLICT (name) DO NOTHING RETURNING id) SELECT id FROM ins UNION ALL SELECT id FROM experiment WHERE name = "
          ∷ param 1
          ∷ text " LIMIT 1"
          ∷ [];
      params = word experiment_name ∷ word description ∷ [];
    },
    row,
  )

  module _ (timestamp_to_datetime : ℤ → Option T) (experiment_id : ℤ) where
    pgm_point : PgmDps F → T → PgmDp F → Statement F T
    unfolding insert_into
    pgm_point msg ts dp =
        insert_into (some msg.sender_ip) (some msg.receiver_ip) "pgm"
          ("time" ∷ "gin" ∷ "gout" ∷ "len" ∷ "num_acked" ∷ "experiment_id" ∷ [])
          (time ts
            ∷ float dp.gin
            ∷ float dp.gout
            ∷ int dp.len
            ∷ int dp.num_acked
            ∷ int experiment_id
            ∷ [])

    -- a message whose time cannot be converted is skipped as a whole
    pgm_points : PgmDps F → Option T → List (Statement F T)
    unfolding pgm_point
    pgm_points msg none = []
    pgm_points msg (some ts) = map (pgm_point msg ts) msg.pgm_dp

    unfoldable pub upload_probe_gap_measurements : List (PgmDps F) → List (Statement F T)
    unfolding pgm_points
    upload_probe_gap_measurements [] = []
    upload_probe_gap_measurements (msg ∷ rest) =
        pgm_points msg (timestamp_to_datetime (pos msg.timestamp))
        ++ upload_probe_gap_measurements rest

    throughput_row : ThroughputDp F → Option T → List (Statement F T)
    unfolding throughput_query
    throughput_row thput none = []
    throughput_row thput (some ts) =
        let values =
          word thput.node1
          ∷ word thput.iface1
          ∷ word thput.ip41
          ∷ word thput.node2
          ∷ word thput.iface2
          ∷ word thput.ip42
          ∷ float thput.throughput
          ∷ time ts
          ∷ int experiment_id
          ∷ [] in
        (record {
          query =
              throughput_query
                ("node1" ∷ "iface1" ∷ "ip41" ∷ "node2" ∷ "iface2" ∷ "ip42" ∷ "throughput" ∷ "time"
                  ∷ "experiment_id" ∷ [])
                (length values);
          params = values;
        })
        ∷ []

    unfoldable pub upload_throughput : List (ThroughputDp F) → List (Statement F T)
    unfolding throughput_row
    upload_throughput [] = []
    upload_throughput (thput ∷ rest) =
        throughput_row thput (timestamp_to_datetime (as_i64 thput.timestamp))
        ++ upload_throughput rest

    link_state_row : LinkStateProto F → Option T → List (Statement F T)
    unfolding insert_into
    link_state_row ls none = []
    link_state_row ls (some ts) =
        insert_into ls.sender_ip ls.receiver_ip "link_state"
          ("thp_in" ∷ "thp_out" ∷ "bw" ∷ "abw" ∷ "latency" ∷ "delay" ∷ "jitter" ∷ "loss" ∷ "time"
            ∷ "experiment_id" ∷ [])
          (float ls.thp_in
            ∷ float ls.thp_out
            ∷ float ls.bw
            ∷ float ls.abw
            ∷ float ls.latency
            ∷ float ls.delay
            ∷ float ls.jitter
            ∷ float ls.loss
            ∷ time ts
            ∷ int experiment_id
            ∷ [])
        ∷ []

    unfoldable pub upload_bandwidth : List (LinkStateProto F) → List (Statement F T)
    unfolding link_state_row
    upload_bandwidth [] = []
    upload_bandwidth (ls ∷ rest) =
        link_state_row ls (timestamp_to_datetime (pos ls.timestamp)) ++ upload_bandwidth rest

    rtt_row : RttMessage F → Rtt F → Option T → List (Statement F T)
    unfolding insert_into
    rtt_row msg rtt none = []
    rtt_row msg rtt (some ts) =
        insert_into (some msg.sender_ip) (some msg.receiver_ip) "rtt"
          ("rtt" ∷ "time" ∷ "experiment_id" ∷ []) (float rtt.rtt ∷ time ts ∷ int experiment_id ∷ [])
        ∷ []

    -- only the round trips whose time cannot be converted are skipped
    rtt_rows : RttMessage F → List (Rtt F) → List (Statement F T)
    unfolding rtt_row
    rtt_rows msg [] = []
    rtt_rows msg (rtt ∷ rest) =
        rtt_row msg rtt (timestamp_to_datetime (pos rtt.timestamp)) ++ rtt_rows msg rest

    unfoldable pub upload_rtt : List (RttMessage F) → List (Statement F T)
    unfolding rtt_rows
    upload_rtt [] = []
    upload_rtt (msg ∷ rest) = rtt_rows msg msg.rtt ++ upload_rtt rest
