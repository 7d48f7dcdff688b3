-- ===== src/Tests/Delivering.antt =====
-- A measurement that reaches the database, at concrete inputs, with millionths for floats.
use network_listener.Prelude.{ℕ, as_millis, Option, some}
use network_listener.Prelude.Double.{micro_double}
use network_listener.Prelude.Int.{ℤ, pos}
use network_listener.Tests.Links.{ticking}

-- every time can be converted
abbrev any_time : ℤ → Option ℤ
any_time t = some t

-- the times of the links, one second apart
abbrev link_times : ℕ → ℤ
link_times i = pos (as_millis (ticking i).tstamp)
