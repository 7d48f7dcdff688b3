-- ===== src/Scheduler/Listener.antt =====
-- src/scheduler/core_grpc.rs: `start_listener`, on what the emulator answers.
use network_listener.Prelude.{Bool, true, false, Option, none, some, List, [], Run, ok, ◌>>=◌}
use network_listener.Prelude.HashMap.{Prober}
use network_listener.Scheduler.CoreSession.{CoreSession, Session, build_session}
use network_listener.Scheduler.Throughput.{ThroughputDp, Clock, Message, thput_event_loop}
pub mod Batches

module _ {O F : Type 0} where
  -- The spawned task, where the call of `throughputs` is answered with a stream. The caller unwraps its
  -- end, so its panic is the caller's.
  unfoldable pub listen :
      Prober → Session O → Option (List (Clock × Message F)) → Run (List (List (ThroughputDp F)))
  listen probe session none = ok []
  listen probe session (some events) = thput_event_loop probe session events []

  -- the session, if there is one
  unfoldable pub with_session :
      Prober
      → Option (CoreSession O)
      → Option (List (Clock × Message F))
      → Run (List (List (ThroughputDp F)))
  unfolding listen
  with_session probe none throughputs = ok []
  with_session probe (some session) throughputs = do
    core_session ← build_session probe session
    listen probe core_session throughputs

  -- Is the connection made, what does `get_session` answer, if it does not fail, and `throughputs`?
  -- The result is `none` for an error, and otherwise the batches that have been sent.
  unfoldable pub start_listener :
      Prober
      → Bool
      → Option (Option (CoreSession O))
      → Option (List (Clock × Message F))
      → Run (Option (List (List (ThroughputDp F))))
  unfolding with_session
  start_listener probe false answer throughputs = ok none
  start_listener probe true none throughputs = ok none
  start_listener probe true (some session) throughputs = do
    batches ← with_session probe session throughputs
    ok (some batches)
