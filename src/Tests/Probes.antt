-- ===== src/Tests/Probes.antt =====
-- The probes, the settings and the interfaces at concrete inputs.
use Prim.Native.String.{String}
use text.Mathlib.Text.{◌==◌}
use network_listener.Prelude.{
  ℕ, ◌≡◌, ◌⊎◌, refl, true, Option, none, some, List, [], ◌∷◌, ◌++◌, All, if◌then◌else◌, from_secs,
  arith,
}
use network_listener.Packet.Parsed.{nano}
use network_listener.Registry.PacketRegistry.{RegressionType}
use network_listener.Config.{Client, Server, host, default_config}
use network_listener.Config.Settings.{RawClient, RawServer, read_config, lower}
use network_listener.Config.Settings.Reading.{
  DescribesClient, DescribesServer, missing, given, read_config-Describes,
}
use network_listener.Probe.Iperf.{finished, read_results}
use network_listener.Probe.Iperf.Documents.{
  Document, IsDocument, output_of, results_of, read_results-documents,
}
use network_listener.Procfs.{get_interface}
use network_listener.Procfs.Interfaces.{IsNamed, get_interface_lem}

-- a parser that knows just one text
abbrev from_str : String → Option ℕ
from_str s = if s == "{\n\t\"error\": \"busy\"\n}\n" then some 1 else none

abbrev busy : Document ℕ
busy = record { noise = "iperf3: started" ∷ []; body = "\t\"error\": \"busy\"" ∷ []; result = 1 }

busy-IsDocument : IsDocument from_str busy
busy-IsDocument = record {
  noise_inner = ((refl, refl), tt);
  body_inner = ((refl, refl), tt);
  parses = refl;
}

read_results-documents_example :
    read_results from_str true "" (output_of from_str (busy ∷ busy ∷ []) ("bye" ∷ []))
    ≡ (results_of from_str (busy ∷ busy ∷ []), finished)
read_results-documents_example =
    read_results-documents from_str (busy ∷ busy ∷ []) ("bye" ∷ []) ""
      (busy-IsDocument, (busy-IsDocument, tt)) ((refl, refl), tt)

abbrev raw_client : RawClient
raw_client = record {
  ip = none;
  iface = some "eth0";
  listen_port = some 4000;
  link_phy_cap = none;
  measurement_window = some 5;
  tstamp_type = some "host";
  timestamp_precision = some "NANO";
  regression_type = some "Rls";
}

abbrev raw_server : RawServer
raw_server = record {
  ip = none;
  port = some 5000;
  send_rtts = some true;
  send_link_states = none;
  send_pgm_dps = none;
  probe_technique = none;
}

abbrev client : Client
client = record default_config.client {
  iface = some "eth0";
  listen_port = 4000;
  measurement_window = from_secs 5;
  tstamp_type = host;
  timestamp_precision = nano;
  regression_type = RegressionType.rls;
}

abbrev server : Server
server = record default_config.server { port = 5000; send_rtts = true }

raw_client-Describes : DescribesClient raw_client client
unfolding lower
raw_client-Describes = record {
  ip = refl;
  iface = refl;
  listen_port = given 4000 4000 (omega arith, refl);
  link_phy_cap = missing;
  measurement_window = given 5 (from_secs 5) (omega arith, refl);
  tstamp_type = given "host" host refl;
  timestamp_precision = given "NANO" nano refl;
  regression_type = given "Rls" RegressionType.rls refl;
}

raw_server-Describes : DescribesServer raw_server server
raw_server-Describes = record {
  ip = missing;
  port = given 5000 5000 (omega arith, refl);
  send_rtts = given true true refl;
  send_link_states = missing;
  send_pgm_dps = missing;
  probe_technique = missing;
}

read_config-Describes_example :
    read_config (record { client = some raw_client; server = some raw_server })
    ≡ some (record { client = client; server = server })
read_config-Describes_example =
    read_config-Describes raw_client raw_server client server raw_client-Describes
      raw_server-Describes

-- the bytes of "w0", and of the name that the kernel gives
abbrev w0 : List ℕ
w0 = 119 ∷ 48 ∷ []

abbrev names : List (List ℕ)
names = (119 ∷ 49 ∷ []) ∷ (119 ∷ 48 ∷ 0 ∷ []) ∷ []

get_interface_lem_example :
    ((before : List (List ℕ)) × (i : List ℕ) × (after : List (List ℕ)) × (names
        ≡ before ++ i ∷ after)
      × All (λ j. ¬ IsNamed w0 (some j)) before
      × IsNamed w0 (some i)
      × (get_interface (λ n. some n) w0 (some names) ≡ some i))
    ⊎ (All (λ j. ¬ IsNamed w0 (some j)) names
        × (get_interface (λ n. some n) w0 (some names) ≡ none))
get_interface_lem_example = get_interface_lem w0 (λ e. ground arith) (λ n. some n) names
