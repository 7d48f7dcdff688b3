-- ===== src/Probe/Iperf.antt =====
-- src/probe/iperf.rs: how the output of iperf3 is cut into results. `R` stands for a result, which
-- `serde_json` makes of a text where it can. Starting the process is left out.
use Prim.Native.String.{String, ◌++◌ as ◌<>◌}
use text.Mathlib.Text.{◌==◌}
use network_listener.Prelude.{Bool, true, false, Option, none, some, List, [], ◌∷◌, if◌then◌else◌}
pub mod Documents

-- what `next_line` gives before the output ends
pub data Line : Type 0 where
  line : String → Line
  unreadable : Line

-- how the reading ends: the output is read to its end, a line cannot be read, or a panic, since a text
-- cannot be parsed or a result cannot be sent
pub data End : Type 0 where
  finished unread panicked : End

module _ {R : Type 0} (from_str : String → Option R) (is_open : Bool) where
  -- the buffer after a line
  abbrev pub push_line : String → String → String
  push_line json_buffer text = (if text == "{" then "" else json_buffer) <> (text <> "\n")

  parsed : Option R → List R × End → List R × End
  parsed none more = ([], panicked)
  parsed (some result) more = if is_open then (result ∷ more.0, more.1) else ([], panicked)

  -- the loop over the lines: the results that are sent, and how it ends
  unfoldable pub read_results : String → List Line → List R × End
  unfolding parsed
  read_results json_buffer [] = ([], finished)
  read_results json_buffer (unreadable ∷ rest) = ([], unread)
  read_results json_buffer (line text ∷ rest) =
      let buffer = push_line json_buffer text in
      let ended = parsed (from_str buffer) (read_results "" rest) in
      let continued = read_results buffer rest in if text == "}" then ended else continued

  -- the server returns the error of a line that cannot be read
  unfoldable start : List Line → List R × End
  unfolding read_results
  start lines = read_results "" lines

  abbrev unwrapped : End → End
  unwrapped unread = panicked
  unwrapped e = e

  -- the client unwraps it
  unfoldable do_iperf_test : List Line → List R × End
  unfolding read_results
  do_iperf_test lines = let r = read_results "" lines in (r.0, unwrapped r.1)
