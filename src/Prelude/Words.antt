-- ===== src/Prelude/Words.antt =====
-- Machine words keep their wrap-around; times and durations are counted in nanoseconds.
use Prim.Native.Nat.{ℕ, ◌+◌, ◌-◌, ◌*◌, ◌/◌, ◌%◌}
use mathlib.Core.Option.{Option, none, some}
use network_listener.Prelude.Tests.{leb, if◌then◌else◌}

abbrev pub u8 : ℕ → ℕ
u8 n = n % 256

abbrev pub u16 : ℕ → ℕ
u16 n = n % 65536

abbrev pub u32 : ℕ → ℕ
u32 n = n % 4294967296

-- `a.wrapping_sub(b)` on u16
abbrev pub sub_u16 : ℕ → ℕ → ℕ
sub_u16 a b = (a + 65536 - b) % 65536

-- `a.wrapping_sub(b)` on u32
abbrev pub sub_u32 : ℕ → ℕ → ℕ
sub_u32 a b = (a + 4294967296 - b) % 4294967296

-- `std::time::SystemTime`, from `UNIX_EPOCH` on: captured times are `UNIX_EPOCH` plus a duration
abbrev pub SystemTime : Type 0
SystemTime = ℕ

abbrev pub Duration : Type 0
Duration = ℕ

abbrev pub unix_epoch : SystemTime
unix_epoch = 0

abbrev pub from_secs : ℕ → Duration
from_secs n = n * 1000000000

abbrev pub as_micros : Duration → ℕ
as_micros d = d / 1000

abbrev pub as_millis : Duration → ℕ
as_millis d = d / 1000000

-- `SystemTime::duration_since`: an error when `earlier` is the later one
abbrev pub duration_since : SystemTime → SystemTime → Option Duration
duration_since t earlier = if leb earlier t then some (t - earlier) else none
