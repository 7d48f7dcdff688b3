-- ===== src/Config/Settings.antt =====
-- src/config.rs: how serde reads the settings of a file. A setting that is missing has its default; one
-- that cannot be read makes the whole file unreadable.
use Prim.Native.Char.{code}
use Prim.Native.String.{String}
use text.Mathlib.Text.{◌==◌ as ◌==ˢ◌}
use network_listener.Prelude.{
  ℕ, ◌+◌, ◌==◌, ltb, leb, Bool, true, false, ◌&&◌, Option, none, some, List, [], ◌∷◌, map,
  if◌then◌else◌, Duration, from_secs,
}
use network_listener.Packet.Parsed.{Precision, micro, nano}
use network_listener.Registry.PacketRegistry.{RegressionType}
use network_listener.Config.{
  TimestampType, host, host_lowprec, host_highprec, adapter, adapter_unsynced, Client, Server,
  AppConfig, default_client, default_server,
}
pub mod Reading

-- the characters of a text
abbrev pub codes : String → List ℕ
codes String.[] = []
codes (String.◌∷◌ c s) = code c ∷ codes s

-- `to_lowercase`, as far as the names below can tell: they are ASCII without a `k`
unfoldable pub lower : ℕ → ℕ
lower c = if leb b'A' c && leb c b'Z' then c + 32 else c

abbrev same_codes : List ℕ → List ℕ → Bool
same_codes [] [] = true
same_codes (a ∷ s) (b ∷ t) = a == b && same_codes s t
same_codes _ _ = false

-- does the text in lower case read like this name?
unfoldable is_name : String → String → Bool
unfolding lower
is_name s name = same_codes (map lower (codes s)) (codes name)

-- an integer of the file that fits a type of this size
fits : ℕ → ℕ → Option ℕ
fits size n = if ltb n size then some n else none

unfoldable pub duration_deserialize : ℕ → Option Duration
unfolding fits
duration_deserialize n = if ltb n 4294967296 then some (from_secs n) else none

unfoldable pub precision_deserialize : String → Option Precision
unfolding is_name
precision_deserialize s =
    if is_name s "micro" then some micro else if is_name s "nano" then some nano else none

-- the names of the types are not brought to lower case
unfoldable pub tstamp_type_deserialize : String → Option TimestampType
tstamp_type_deserialize s =
    if s ==ˢ "adapter"
    then some adapter
    else if s ==ˢ "host"
    then some host
    else if s ==ˢ "host_lowprec"
    then some host_lowprec
    else if s ==ˢ "adapter_unsynced"
    then some adapter_unsynced
    else if s ==ˢ "host_highprec"
    then some host_highprec
    else none

unfoldable pub regression_type_deserialize : String → Option RegressionType
unfolding is_name
regression_type_deserialize s =
    if is_name s "rls"
    then some RegressionType.rls
    else if is_name s "simple"
    then some RegressionType.simple
    else none

-- the table `[client]`, each setting as it stands there, if it does
pub record RawClient : Type 0 where
  pub ip : Option String
  pub iface : Option String
  pub listen_port : Option ℕ
  pub link_phy_cap : Option ℕ
  pub measurement_window : Option ℕ
  pub tstamp_type : Option String
  pub timestamp_precision : Option String
  pub regression_type : Option String

pub record RawServer : Type 0 where
  pub ip : Option String
  pub port : Option ℕ
  pub send_rtts : Option Bool
  pub send_link_states : Option Bool
  pub send_pgm_dps : Option Bool
  pub probe_technique : Option String

-- both tables have to be there
pub record RawConfig : Type 0 where
  pub client : Option RawClient
  pub server : Option RawServer

infixl 5 ◌>>=◌
abbrev ◌>>=◌ : {A B : Type 0} → Option A → (A → Option B) → Option B
none >>= f = none
some a >>= f = f a

abbrev setting : {A B : Type 0} → (A → Option B) → B → Option A → Option B
setting read default none = some default
setting read default (some a) = read a

abbrev as_is : {A : Type 0} → A → Option A
as_is a = some a

unfoldable pub read_client : RawClient → Option Client
unfolding fits duration_deserialize precision_deserialize tstamp_type_deserialize
    regression_type_deserialize
read_client raw = do
  listen_port ← setting (fits 65536) default_client.listen_port raw.listen_port
  link_phy_cap ← setting (fits 4294967296) default_client.link_phy_cap raw.link_phy_cap
  measurement_window ←
      setting duration_deserialize default_client.measurement_window raw.measurement_window
  tstamp_type ← setting tstamp_type_deserialize default_client.tstamp_type raw.tstamp_type
  timestamp_precision ←
      setting precision_deserialize default_client.timestamp_precision raw.timestamp_precision
  regression_type ←
      setting regression_type_deserialize default_client.regression_type raw.regression_type
  some (record {
    ip = raw.ip;
    iface = raw.iface;
    listen_port = listen_port;
    link_phy_cap = link_phy_cap;
    measurement_window = measurement_window;
    tstamp_type = tstamp_type;
    timestamp_precision = timestamp_precision;
    regression_type = regression_type;
  })

unfoldable pub read_server : RawServer → Option Server
unfolding fits
read_server raw = do
  ip ← setting as_is default_server.ip raw.ip
  port ← setting (fits 65536) default_server.port raw.port
  send_rtts ← setting as_is default_server.send_rtts raw.send_rtts
  send_link_states ← setting as_is default_server.send_link_states raw.send_link_states
  send_pgm_dps ← setting as_is default_server.send_pgm_dps raw.send_pgm_dps
  probe_technique ← setting as_is default_server.probe_technique raw.probe_technique
  some (record {
    ip = ip;
    port = port;
    send_rtts = send_rtts;
    send_link_states = send_link_states;
    send_pgm_dps = send_pgm_dps;
    probe_technique = probe_technique;
  })

required : Option RawClient → Option RawServer → Option AppConfig
unfolding read_client read_server
required (some c) (some s) = do
  client ← read_client c
  server ← read_server s
  some (record { client = client; server = server })
required _ _ = none

unfoldable pub read_config : RawConfig → Option AppConfig
unfolding required
read_config raw = required raw.client raw.server
