-- ===== src/Config/Sources.antt =====
-- Which of command line, file and defaults a setting comes from.
use Prim.Native.String.{String}
use network_listener.Prelude.{◌≡◌, ◌≢◌, ◌⊎◌, inl, inr, refl, Option, none, some, ok, panic}
use network_listener.Config.{
  AppConfig, CliArgs, ConfigFiles, default_config, override_ip, override_iface, override, from_file,
  load_config,
}

abbrev or_else : Option String → Option String → Option String
or_else none other = other
or_else (some s) other = some s

-- the settings before the command line is looked at
abbrev pub base : Option (Option AppConfig) → AppConfig
base (some (some config)) = config
base _ = default_config

-- `base` with the address and the interface of the command line
abbrev pub merged : CliArgs → AppConfig → AppConfig
merged args b = record {
  client = record b.client {
    ip = or_else args.host b.client.ip;
    iface = or_else args.iface b.client.iface;
  };
  server = b.server;
}

overridden :
    (host iface : Option String) (b : AppConfig)
    → override_iface iface (override_ip host b) ≡ record {
      client = record b.client {
        ip = or_else host b.client.ip;
        iface = or_else iface b.client.iface;
      };
      server = b.server;
    }
unfolding override_ip override_iface
overridden none none b = refl
overridden none (some i) b = refl
overridden (some h) none b = refl
overridden (some h) (some i) b = refl

-- The settings are those of the file as a whole, or the defaults where there is no file, with the
-- address and the interface replaced by what the command line gives; only a file that cannot be read
-- or parsed makes the program panic.
pub load_config-merged :
    (args : CliArgs) (files : ConfigFiles)
    → ((files args.config ≢ some none)
        × (load_config args files ≡ ok (merged args (base (files args.config)))))
      ⊎ ((files args.config ≡ some none) × (load_config args files ≡ panic))
unfolding load_config
load_config-merged args files = loaded (files args.config)
  where
    loaded :
        (file : Option (Option AppConfig))
        → ((file ≢ some none) × (override args (from_file file) ≡ ok (merged args (base file))))
          ⊎ ((file ≡ some none) × (override args (from_file file) ≡ panic))
    loaded none = inl (λ e. cc, rw (overridden args.host args.iface default_config) refl)
    loaded (some none) = inr (refl, refl)
    loaded (some (some config)) = inl (λ e. cc, rw (overridden args.host args.iface config) refl)
