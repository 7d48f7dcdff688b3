-- ===== src/Packet/Direction.antt =====
-- src/listener/packet/direction.rs
use network_listener.Prelude.{ℕ, Bool, true, false, ◌==◌, if◌then◌else◌}

-- the 48 bits of `pnet::util::MacAddr`
abbrev pub MacAddr : Type 0
MacAddr = ℕ

pub data Direction : Type 0 where
  incoming outgoing : Direction

unfoldable pub from_mac : MacAddr → MacAddr → Direction
from_mac mac own_mac = if mac == own_mac then incoming else outgoing

unfoldable is_incoming : Direction → Bool
is_incoming incoming = true
is_incoming outgoing = false

unfoldable is_outgoing : Direction → Bool
is_outgoing incoming = false
is_outgoing outgoing = true
