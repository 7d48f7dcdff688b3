-- ===== src/Config.antt =====
-- src/config.rs: the settings, their defaults, and which source wins. What the file system and the
-- TOML parser make of the file is an argument.
use Prim.Native.String.{String}
use network_listener.Prelude.{
  ℕ, Bool, true, false, Option, none, some, Run, ok, panic, Duration, from_secs,
}
use network_listener.Packet.Parsed.{Precision, micro}
use network_listener.Registry.PacketRegistry.{RegressionType}
pub mod Sources
pub mod Settings

-- `pcap::TimestampType`
pub data TimestampType : Type 0 where
  host host_lowprec host_highprec adapter adapter_unsynced : TimestampType

pub record Client : Type 0 where
  pub ip : Option String
  pub iface : Option String
  pub listen_port : ℕ
  pub link_phy_cap : ℕ
  pub measurement_window : Duration
  pub tstamp_type : TimestampType
  pub timestamp_precision : Precision
  pub regression_type : RegressionType

pub record Server : Type 0 where
  pub ip : String
  pub port : ℕ
  pub send_rtts : Bool
  pub send_link_states : Bool
  pub send_pgm_dps : Bool
  pub probe_technique : String

pub record AppConfig : Type 0 where
  pub client : Client
  pub server : Server

abbrev default_regression_type : RegressionType
default_regression_type = RegressionType.simple

abbrev default_server_ip : String
default_server_ip = "172.16.0.254"

abbrev default_server_port : ℕ
default_server_port = 50041

abbrev default_listen_port : ℕ
default_listen_port = 40042

abbrev default_measurement_window : Duration
default_measurement_window = from_secs 20

-- `u32::MAX`
abbrev default_link_phy_cap : ℕ
default_link_phy_cap = 4294967295

abbrev default_tstamp_type : TimestampType
default_tstamp_type = adapter

abbrev default_timestamp_precision : Precision
default_timestamp_precision = micro

abbrev default_send_rtts : Bool
default_send_rtts = false

abbrev default_send_link_states : Bool
default_send_link_states = true

abbrev default_send_pgm_dps : Bool
default_send_pgm_dps = false

abbrev default_probe_technique : String
default_probe_technique = "iperf3"

abbrev default_client : Client
default_client = record {
  ip = none;
  iface = none;
  listen_port = default_listen_port;
  link_phy_cap = default_link_phy_cap;
  measurement_window = default_measurement_window;
  tstamp_type = default_tstamp_type;
  timestamp_precision = default_timestamp_precision;
  regression_type = default_regression_type;
}

abbrev default_server : Server
default_server = record {
  ip = default_server_ip;
  port = default_server_port;
  send_rtts = default_send_rtts;
  send_link_states = default_send_link_states;
  send_pgm_dps = default_send_pgm_dps;
  probe_technique = default_probe_technique;
}

abbrev pub default_config : AppConfig
default_config = record { client = default_client; server = default_server }

pub record CliArgs : Type 0 where
  pub config : String
  pub host : Option String
  pub iface : Option String

-- what stands at a path: nothing, or a file, with what it parses to if it can be read and parsed
abbrev pub ConfigFiles : Type 0
ConfigFiles = String → Option (Option AppConfig)

from_file : Option (Option AppConfig) → Run AppConfig
from_file none = ok default_config
from_file (some none) = panic
from_file (some (some config)) = ok config

override_ip : Option String → AppConfig → AppConfig
override_ip none config = config
override_ip (some ip) config = record config { client = record config.client { ip = some ip } }

override_iface : Option String → AppConfig → AppConfig
override_iface none config = config
override_iface (some iface) config = record config {
  client = record config.client { iface = some iface };
}

override : CliArgs → Run AppConfig → Run AppConfig
unfolding override_ip override_iface
override args panic = panic
override args (ok config) = ok (override_iface args.iface (override_ip args.host config))

unfoldable pub load_config : CliArgs → ConfigFiles → Run AppConfig
unfolding from_file override
load_config args files = override args (from_file (files args.config))
