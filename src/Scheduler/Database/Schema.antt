-- ===== src/Scheduler/Database/Schema.antt =====
-- src/scheduler/up.sql: the tables that the rows of the measurements go to, and which rows they take. A
-- `link_id` is given by the query of every row of a link, and `id` counts up by itself.
use Prim.Native.String.{String}
use text.Mathlib.Text.{◌==◌}
use network_listener.Prelude.{
  Bool, true, false, ◌&&◌, ◌||◌, Option, none, some, List, [], ◌∷◌, if◌then◌else◌,
}
use network_listener.Scheduler.Database.Rows.{Row}

pub record Table : Type 0 where
  pub columns : List String
  -- `NOT NULL`, besides `link_id` and `id`
  pub required : List String

abbrev link_state_table : Table
link_state_table = record {
  columns =
      "time" ∷ "id" ∷ "link_id" ∷ "experiment_id" ∷ "thp_in" ∷ "thp_out" ∷ "bw" ∷ "abw" ∷ "latency"
      ∷ "delay" ∷ "jitter" ∷ "loss" ∷ [];
  required = "time" ∷ "experiment_id" ∷ [];
}

abbrev pgm_table : Table
pgm_table = record {
  columns = "time" ∷ "id" ∷ "link_id" ∷ "experiment_id" ∷ "gin" ∷ "gout" ∷ "len" ∷ "num_acked" ∷ [];
  required = "time" ∷ "experiment_id" ∷ [];
}

abbrev rtt_table : Table
rtt_table = record { columns = "time" ∷ "id" ∷ "link_id" ∷ "rtt" ∷ []; required = "time" ∷ [] }

abbrev throughput_table : Table
throughput_table = record {
  columns =
      "time" ∷ "id" ∷ "experiment_id" ∷ "node1" ∷ "iface1" ∷ "ip41" ∷ "node2" ∷ "iface2" ∷ "ip42"
      ∷ "throughput" ∷ [];
  required =
      "time" ∷ "experiment_id" ∷ "node1" ∷ "iface1" ∷ "ip41" ∷ "node2" ∷ "iface2" ∷ "ip42" ∷ [];
}

abbrev find_table : String → Option Table
find_table name =
    if name == "link_state"
    then some link_state_table
    else if name == "pgm"
    then some pgm_table
    else if name == "rtt"
    then some rtt_table
    else if name == "throughput"
    then some throughput_table
    else none

abbrev has : String → List String → Bool
has name [] = false
has name (x ∷ xs) = name == x || has name xs

abbrev has_all : List String → List String → Bool
has_all [] names = true
has_all (x ∷ xs) names = has x names && has_all xs names

abbrev names_of : {A : Type 0} → List (String × A) → List String
names_of [] = []
names_of (field ∷ fields) = field.0 ∷ names_of fields

abbrev fits : Option Table → List String → Bool
fits none given = false
fits (some t) given = has_all given t.columns && has_all t.required given

abbrev into : Option String → Option Table
into none = none
into (some name) = find_table name

-- the database takes a row if the table has each of its columns, and the row each that the table
-- wants
abbrev pub is_taken : {F T : Type 0} → Row F T → Bool
is_taken row = fits (into row.table) (names_of row.fields)
