-- ===== src/Probe/Ping.antt =====
-- src/probe/ping.rs: the pingers, one for each host. `C` stands for the configurations of surge_ping,
-- `D` for what a ping gives.
use network_listener.Prelude.{ℕ, Bool, Option, none, some, List, [], ◌∷◌, if◌then◌else◌}
use network_listener.Prelude.HashMap
use network_listener.Prelude.HashMap.{HashMap, Prober}
use network_listener.Packet.Ip.{IpAddr, v4, v6}
use network_listener.Net.ClientHandler.{ip_hashed}

-- `ICMP`
pub data Icmp : Type 0 where
  icmp_v4 icmp_v6 : Icmp

-- what a pinger was made with: a default client, or one of a given configuration
pub data Pinger (C : Type 0) : Type 0 where
  of_client : Icmp → Pinger C
  of_config : C → Pinger C

pub data PingCommand (C : Type 0) : Type 0 where
  register : IpAddr → C → PingCommand C
  ping : IpAddr → ℕ → List ℕ → PingCommand C

abbrev pub Pingers : Type 0 → Type 0
Pingers C = HashMap IpAddr (Pinger C)

abbrev get_client : IpAddr → Icmp
get_client (v4 a) = icmp_v4
get_client (v6 a) = icmp_v6

module _ {C : Type 0} (probe : Prober) where
  -- a configuration that makes no client is an error, and changes nothing
  unfoldable pub create_pinger : Bool → Pingers C → IpAddr → C → Pingers C
  create_pinger accepted pingers host config =
      if accepted then HashMap.insert probe host (of_config config) pingers else pingers

  get_or_insert : Pingers C → IpAddr → Option (Pinger C) → Pingers C
  get_or_insert pingers host none = HashMap.insert probe host (of_client (get_client host)) pingers
  get_or_insert pingers host (some pinger) = pingers

  unfoldable pub get_or_create_pinger : Pingers C → IpAddr → Pingers C
  unfolding get_or_insert
  get_or_create_pinger pingers host = get_or_insert pingers host (HashMap.get probe host pingers)

  -- The pingers after the commands, each with whether its configuration makes a client. The results
  -- never leave: the future that would send one is dropped before it has run.
  unfoldable pub run : Pingers C → List (Bool × PingCommand C) → Pingers C
  unfolding create_pinger get_or_create_pinger
  run pingers [] = pingers
  run pingers ((accepted, register host config) ∷ rest) =
      run (create_pinger accepted pingers host config) rest
  run pingers ((accepted, ping host seq payload) ∷ rest) =
      run (get_or_create_pinger pingers host) rest
