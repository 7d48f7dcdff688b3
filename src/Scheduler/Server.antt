-- ===== src/Scheduler/Server.antt =====
-- src/scheduler/scheduler.rs: the loop of the server that stores what it receives.
use network_listener.Prelude.{
  ℕ, ◌+◌, ◌-◌, ◌*◌, Bool, true, false, ◌||◌, Option, none, some, List, [], ◌∷◌, ◌++◌, ltb, leb,
  ◌==◌, if◌then◌else◌, Run, ok, panic,
}
use network_listener.Prelude.Int.{ℤ}
use network_listener.Net.Messages.{DataMsg, empty, bandwidth, hello, rtts, pgmmsg}
use network_listener.Scheduler.Throughput.{ThroughputDp}
use network_listener.Scheduler.Database.{
  Statement, upload_throughput, upload_bandwidth, upload_rtt, upload_probe_gap_measurements,
}
pub mod Storing

-- `split(':').last()`, on the characters
unfoldable after_last_colon : List ℕ → List ℕ → List ℕ
after_last_colon [] part = part
after_last_colon (c ∷ rest) part = after_last_colon rest (if c == b':' then [] else part ++ c ∷ [])

-- `parse::<u16>()` behind an optional `+`
unfoldable digits_u16 : List ℕ → ℕ → Option ℕ
digits_u16 [] n = some n
digits_u16 (c ∷ rest) n =
    let more = digits_u16 rest (n * 10 + (c - b'0')) in
    if ltb c b'0' || ltb b'9' c || ltb 65535 (n * 10 + (c - b'0')) then none else more

unfoldable parse_u16 : List ℕ → Option ℕ
unfolding digits_u16
parse_u16 [] = none
parse_u16 (c ∷ []) = if c == b'+' then none else digits_u16 (c ∷ []) 0
parse_u16 (c ∷ d ∷ rest) =
    if c == b'+' then digits_u16 (d ∷ rest) 0 else digits_u16 (c ∷ d ∷ rest) 0

unfoldable listen_port : List ℕ → Option ℕ
unfolding after_last_colon parse_u16
listen_port listen_addr = parse_u16 (after_last_colon listen_addr [])

-- what `select!` takes next: a batch, a message, or that both channels are closed
pub data ServerEvent (F : Type 0) : Type 0 where
  throughputs : List (ThroughputDp F) → ServerEvent F
  received : DataMsg F → ServerEvent F
  all_closed : ServerEvent F

module _ {F T : Type 0} (timestamp_to_datetime : ℤ → Option T) (experiment_id : ℤ) where
  unfoldable pub store_msg : DataMsg F → List (Statement F T)
  store_msg empty = []
  store_msg (bandwidth bw) = upload_bandwidth timestamp_to_datetime experiment_id bw
  store_msg (hello message) = []
  store_msg (rtts r) = upload_rtt timestamp_to_datetime experiment_id r
  store_msg (pgmmsg pgm) = upload_probe_gap_measurements timestamp_to_datetime experiment_id pgm

  -- the statements executed, and how the loop stands; `select!` panics with no branch left
  unfoldable pub run_server : List (ServerEvent F) → List (Statement F T) × Run (Unit {0})
  unfolding store_msg
  run_server [] = ([], ok tt)
  run_server (throughputs thput ∷ rest) =
      let more = run_server rest in
      (upload_throughput timestamp_to_datetime experiment_id thput ++ more.0, more.1)
  run_server (received bwm ∷ rest) = let more = run_server rest in (store_msg bwm ++ more.0, more.1)
  run_server (all_closed ∷ rest) = ([], panic)
