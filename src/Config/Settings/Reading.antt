-- ===== src/Config/Settings/Reading.antt =====
-- Which settings a file gives.
use Prim.Native.String.{String}
use network_listener.Prelude.{
  ℕ, ◌<◌, ◌≡◌, refl, ap, ap₂, sym, true, Option, none, some, List, [], ◌∷◌, map, Duration,
  from_secs, arith,
}
use network_listener.Packet.Parsed.{Precision, micro, nano}
use network_listener.Registry.PacketRegistry.{RegressionType}
use network_listener.Config.{
  TimestampType, host, host_lowprec, host_highprec, adapter, adapter_unsynced, Client, Server,
  default_client, default_server, default_config,
}
use network_listener.Config.Settings.{
  codes, lower, same_codes, is_name, fits, duration_deserialize, precision_deserialize,
  tstamp_type_deserialize, regression_type_deserialize, RawClient, RawServer, setting, as_is,
  read_client, read_server, read_config,
}

-- the names of the values, as the documentation of the file has them
abbrev pub precision_name : Precision → String
precision_name micro = "micro"
precision_name nano = "nano"

abbrev pub regression_name : RegressionType → String
regression_name RegressionType.rls = "rls"
regression_name RegressionType.simple = "simple"

abbrev pub tstamp_name : TimestampType → String
tstamp_name host = "host"
tstamp_name host_lowprec = "host_lowprec"
tstamp_name host_highprec = "host_highprec"
tstamp_name adapter = "adapter"
tstamp_name adapter_unsynced = "adapter_unsynced"

-- a text that is the name but for capital letters
abbrev pub Spells : String → String → Type 0
Spells name s = map lower (codes s) ≡ codes name

-- a setting that is missing has its default, one that is there stands for its value
pub data Gives {A B : Type 0} (Means : A → B → Type 0) (default : B) : Option A → B → Type 0 where
  missing : Gives Means default none default
  given : (a : A) (b : B) → Means a b → Gives Means default (some a) b

-- a number that fits its type
abbrev pub Number : ℕ → ℕ → ℕ → Type 0
Number size n value = (n < size) × (value ≡ n)

abbrev pub Same : {A : Type 0} → A → A → Type 0
Same a b = a ≡ b

pub record DescribesClient (raw : RawClient) (c : Client) : Type 0 where
  pub ip : c.ip ≡ raw.ip
  pub iface : c.iface ≡ raw.iface
  pub listen_port : Gives (Number 65536) default_client.listen_port raw.listen_port c.listen_port
  pub link_phy_cap :
      Gives (Number 4294967296) default_client.link_phy_cap raw.link_phy_cap c.link_phy_cap
  pub measurement_window :
      Gives
        (λ n d. (n < 4294967296) × (d ≡ from_secs n))
        default_client.measurement_window
        raw.measurement_window
        c.measurement_window
  pub tstamp_type :
      Gives (λ s t. s ≡ tstamp_name t) default_client.tstamp_type raw.tstamp_type c.tstamp_type
  pub timestamp_precision :
      Gives
        (λ s p. Spells (precision_name p) s)
        default_client.timestamp_precision
        raw.timestamp_precision
        c.timestamp_precision
  pub regression_type :
      Gives
        (λ s r. Spells (regression_name r) s)
        default_client.regression_type
        raw.regression_type
        c.regression_type

pub record DescribesServer (raw : RawServer) (s : Server) : Type 0 where
  pub ip : Gives Same default_server.ip raw.ip s.ip
  pub port : Gives (Number 65536) default_server.port raw.port s.port
  pub send_rtts : Gives Same default_server.send_rtts raw.send_rtts s.send_rtts
  pub send_link_states :
      Gives Same default_server.send_link_states raw.send_link_states s.send_link_states
  pub send_pgm_dps : Gives Same default_server.send_pgm_dps raw.send_pgm_dps s.send_pgm_dps
  pub probe_technique :
      Gives Same default_server.probe_technique raw.probe_technique s.probe_technique

setting_lem :
    {A B : Type 0} (read : A → Option B) (default : B) {Means : A → B → Type 0} {o : Option A}
    {b : B}
    → ((a : A) (b : B) → Means a b → read a ≡ some b)
    → Gives Means default o b
    → setting read default o ≡ some b
setting_lem read default sound missing = refl
setting_lem read default sound (given a b m) = sound a b m

fits_lem : (size n value : ℕ) → Number size n value → fits size n ≡ some value
unfolding fits
fits_lem size n value h = ground (arith)

duration_lem :
    (n : ℕ) (d : Duration) → (n < 4294967296) × (d ≡ from_secs n) → duration_deserialize n ≡ some d
unfolding duration_deserialize
duration_lem n d h = ground arith

same_codes_refl : (s : List ℕ) → same_codes s s ≡ true
same_codes_refl [] = refl
same_codes_refl (c ∷ s) = ground (arith, same_codes_refl s)

precision_lem :
    (s : String) (p : Precision) → Spells (precision_name p) s → precision_deserialize s ≡ some p
unfolding precision_deserialize is_name
precision_lem s micro h = rw h refl
precision_lem s nano h = rw h refl

regression_lem :
    (s : String) (r : RegressionType)
    → Spells (regression_name r) s
    → regression_type_deserialize s ≡ some r
unfolding regression_type_deserialize is_name
regression_lem s RegressionType.rls h = rw h refl
regression_lem s RegressionType.simple h = rw h refl

tstamp_lem :
    (s : String) (t : TimestampType) → s ≡ tstamp_name t → tstamp_type_deserialize s ≡ some t
unfolding tstamp_type_deserialize
tstamp_lem s host h = rw h refl
tstamp_lem s host_lowprec h = rw h refl
tstamp_lem s host_highprec h = rw h refl
tstamp_lem s adapter h = rw h refl
tstamp_lem s adapter_unsynced h = rw h refl

read_client_lem : (raw : RawClient) (c : Client) → DescribesClient raw c → read_client raw ≡ some c
unfolding read_client
read_client_lem raw c d =
    rw
      (
        setting_lem (fits 65536) default_client.listen_port (fits_lem 65536) d.listen_port,
        setting_lem (fits 4294967296) default_client.link_phy_cap (fits_lem 4294967296)
            d.link_phy_cap,
        setting_lem duration_deserialize default_client.measurement_window duration_lem
            d.measurement_window,
        setting_lem tstamp_type_deserialize default_client.tstamp_type tstamp_lem d.tstamp_type,
        setting_lem precision_deserialize default_client.timestamp_precision precision_lem
            d.timestamp_precision,
        setting_lem regression_type_deserialize default_client.regression_type regression_lem
            d.regression_type,
      )
      (ap₂ (λ ip iface. some (record c { ip = ip; iface = iface })) (sym d.ip) (sym d.iface))

same_lem : {A : Type 0} (a b : A) → Same a b → as_is a ≡ some b
same_lem a b e = ap some e

read_server_lem : (raw : RawServer) (s : Server) → DescribesServer raw s → read_server raw ≡ some s
unfolding read_server
read_server_lem raw s d =
    rw
      (
        setting_lem as_is default_server.ip same_lem d.ip,
        setting_lem (fits 65536) default_server.port (fits_lem 65536) d.port,
        setting_lem as_is default_server.send_rtts same_lem d.send_rtts,
        setting_lem as_is default_server.send_link_states same_lem d.send_link_states,
        setting_lem as_is default_server.send_pgm_dps same_lem d.send_pgm_dps,
        setting_lem as_is default_server.probe_technique same_lem d.probe_technique,
      )
      refl

-- A file with both tables is read, as just the settings that it describes: each one that is there has
-- the value that it names, with capital or small letters for the precision and the regression, and
-- small ones only for the type of time stamps; each one that is missing has its default.
pub read_config-Describes :
    (rc : RawClient) (rs : RawServer) (c : Client) (s : Server)
    → DescribesClient rc c
    → DescribesServer rs s
    → read_config (record { client = some rc; server = some rs })
      ≡ some (record { client = c; server = s })
unfolding read_config
read_config-Describes rc rs c s dc ds = rw (read_client_lem rc c dc, read_server_lem rs s ds) refl

-- two empty tables are the defaults of the program
read_config-defaults :
    read_config (record {
      client = some (record {
        ip = none;
        iface = none;
        listen_port = none;
        link_phy_cap = none;
        measurement_window = none;
        tstamp_type = none;
        timestamp_precision = none;
        regression_type = none;
      });
      server = some (record {
        ip = none;
        port = none;
        send_rtts = none;
        send_link_states = none;
        send_pgm_dps = none;
        probe_technique = none;
      });
    })
    ≡ some default_config
unfolding read_config
read_config-defaults = refl
