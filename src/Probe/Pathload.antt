-- ===== src/Probe/Pathload.antt =====
-- src/probe/pathload.rs: the lines of pathload_rcv that are results. Starting the processes is left
-- out.
use Prim.Native.String.{String}
use text.Mathlib.Text.{starts_with}
use network_listener.Prelude.{Bool, List, [], ◌∷◌, if◌then◌else◌}
use network_listener.Probe.Iperf.{Line, line, unreadable, End, finished, panicked}

module _ (is_open : Bool) where
  -- a result that cannot be sent is only logged
  abbrev sent : String → List String → List String
  sent text more = if is_open then text ∷ more else more

  -- the results that are sent, and how it ends; a line that cannot be read is unwrapped
  unfoldable pub do_pathload_test : List Line → List String × End
  do_pathload_test [] = ([], finished)
  do_pathload_test (unreadable ∷ rest) = ([], panicked)
  do_pathload_test (line text ∷ rest) =
      let more = do_pathload_test rest in
      (if starts_with text "DATE=" then sent text more.0 else more.0, more.1)
