-- ===== src/Config/Tests.antt =====
-- A file with a negative cap and a bad interval, below an environment that sets a few variables.
use directory_exporter.Common.{
  ◌++◌, ◌*◌, pos, negsuc, [], codes, arith, eqb, ◌∷◌, none, some, if◌then◌else◌, ◌≡◌, refl, Error,
  ◌↔◌,
}
use directory_exporter.Go.Os.{ok, err}
use directory_exporter.Go.Strconv.{parse_int}
use directory_exporter.Go.Duration.{parse_duration}
use directory_exporter.Config.{
  apply_env_overrides, apply_file_config, defaults, FileConfig, Config, Env, second, parsed,
  base_path_targets, file_layer, default_max_depth, with_secret, file_tracelog_dir, load_config,
}
use directory_exporter.Config.Loaded.{Applied, load_config-IsLayered}
use directory_exporter.Config.Failures.{Failure, load_config_fails_iff}
use directory_exporter.Config.Precedence.{IsLayered}
use directory_exporter.Config.Valid.{IsValid, load_config-IsValid}

abbrev env : Env
env name =
    if eqb name (codes "SCAN_INTERVAL")
    then codes "30s"
    else if eqb name (codes "SCAN_WORKERS")
    then codes "0"
    else if eqb name (codes "CONFIG_FILE")
    then codes "targets.yml"
    else []

abbrev file : FileConfig
file = record {
  targets =
      record {
        base = codes "/s";
        label = [];
        dirs = [];
        max_depth = pos 0;
        pattern = [];
        include = [];
      }
      ∷ [];
  tracelog = codes "/logs" ∷ [];
  tracelog_dir = [];
  min_delay = codes "0s";
  trace_lookback_days = some (negsuc 0);
  listen_addr = [];
  reload_secret = [];
  scan_interval = codes "5m";
  scan_workers = pos 4;
  scan_timeout = codes "soon";
  discovery_interval = [];
  max_files_per_dir = some (negsuc 0);
  max_stat_files = none;
}

abbrev loaded : Config
loaded = record {
  targets =
      record {
        base = codes "/s";
        label = [];
        dirs = [];
        max_depth = pos 1;
        pattern = [];
        include = [];
      }
      ∷ [];
  tracelog_dir = codes "/logs";
  min_delay = pos 0;
  trace_lookback_days = pos 7;
  scan_interval = pos (30 * second);
  scan_workers = pos 4;
  reload_secret = codes "0aff";
  discovery_interval = pos (21600 * second);
  listen_addr = codes ":9200";
  scan_timeout = pos (90 * second);
  max_files_per_dir = negsuc 0;
  max_stat_files = pos 5000;
}

load : load_config env (λ p. ok []) (λ t. ok file) (ok (10 ∷ 255 ∷ [])) ≡ ok loaded
unfolding load_config file_layer base_path_targets apply_env_overrides apply_file_config
    file_tracelog_dir parsed parse_duration parse_int with_secret default_max_depth defaults
load = refl

no_targets :
    load_config (λ n. []) (λ p. ok []) (λ t. ok file) (ok [])
    ≡ err (
        codes "no targets configured "
        ++ (226
            ∷ 128
            ∷ 148
            ∷ codes " set CONFIG_FILE pointing to a targets YAML, or set BASE_PATH"))
unfolding load_config file_layer base_path_targets apply_env_overrides defaults
no_targets = refl

load_config-IsValid_example : IsValid loaded
load_config-IsValid_example =
    load_config-IsValid env (λ p. ok []) (λ t. ok file) (ok (10 ∷ 255 ∷ [])) loaded
      (λ bytes h. ground arith) load

load_config-IsLayered_example :
    (fc : FileConfig) × Applied env (λ p. ok []) (λ t. ok file) fc × IsLayered env fc loaded
load_config-IsLayered_example =
    load_config-IsLayered env (λ p. ok []) (λ t. ok file) (ok (10 ∷ 255 ∷ [])) loaded load

load_config_fails_iff_example :
    ((e : Error) × (load_config (λ n. []) (λ p. ok []) (λ t. ok file) (ok []) ≡ err e))
    ↔ Failure (λ n. []) (λ p. ok []) (λ t. ok file) (ok [])
load_config_fails_iff_example = load_config_fails_iff (λ n. []) (λ p. ok []) (λ t. ok file) (ok [])
