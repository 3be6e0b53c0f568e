-- ===== src/Config.antt =====
-- config.go: the configuration from its three layers. Durations are in nanoseconds.
pub mod Precedence
pub mod Valid
pub mod Loaded
pub mod Failures
mod Tests
use directory_exporter.Common.{
  ℕ, ◌*◌, ℤ, pos, ltb_ℤ, leb_ℤ, Bool, ◌&&◌, ◌||◌, not, List, [], codes, map, ◌∷◌, ◌++◌, Option,
  none, some, Bytes, if◌then◌else◌, is_empty,
}
use directory_exporter.Types.{Target}
use directory_exporter.Go.Os.{Result, ok, err, ◌>>=◌}
use directory_exporter.Go.Strconv.{parse_int, hex, quote_text}
use directory_exporter.Go.Duration.{parse_duration}

-- The YAML file; `none` stands for a nil pointer, and the list `tracelog` holds the field `dir`.
pub record FileConfig : Type 0 where
  pub targets : List Target
  pub tracelog : List Bytes
  pub tracelog_dir : Bytes
  pub min_delay : Bytes
  pub trace_lookback_days : Option ℤ
  pub listen_addr : Bytes
  pub reload_secret : Bytes
  pub scan_interval : Bytes
  pub scan_workers : ℤ
  pub scan_timeout : Bytes
  pub discovery_interval : Bytes
  pub max_files_per_dir : Option ℤ
  pub max_stat_files : Option ℤ

pub record Config : Type 0 where
  pub targets : List Target
  pub tracelog_dir : Bytes
  pub min_delay : ℤ
  pub trace_lookback_days : ℤ
  pub scan_interval : ℤ
  pub scan_workers : ℤ
  pub reload_secret : Bytes
  pub discovery_interval : ℤ
  pub listen_addr : Bytes
  pub scan_timeout : ℤ
  pub max_files_per_dir : ℤ
  pub max_stat_files : ℤ

abbrev pub second : ℕ
second = 1000000000

unfoldable pub defaults : Config
defaults = record {
  targets = [];
  tracelog_dir = [];
  min_delay = pos (600 * second);
  trace_lookback_days = pos 7;
  scan_interval = pos (120 * second);
  scan_workers = pos 2;
  reload_secret = [];
  discovery_interval = pos (21600 * second);
  listen_addr = codes ":9200";
  scan_timeout = pos (90 * second);
  max_files_per_dir = pos 0;
  max_stat_files = pos 5000;
}

-- A text that is set replaces the old one.
abbrev pub set_text : Bytes → Bytes → Bytes
set_text text old = if is_empty text then old else text

-- The tests of the settings: `d > 0`, and `d >= 0`.
abbrev pub is_positive : ℤ → Bool
is_positive d = ltb_ℤ (pos 0) d

abbrev pub is_natural : ℤ → Bool
is_natural d = leb_ℤ (pos 0) d

-- The value of a setting's text, if it is set, can be parsed and passes the test.
unfoldable pub parsed : (Bytes → Option ℤ) → (ℤ → Bool) → Bytes → Option ℤ
parsed parse test text =
    if is_empty text
    then none
    else elim (parse text) [ none ↦ none | some d ↦ if test d then some d else none ]

-- A value that is given replaces the old one.
abbrev pub or_old : Option ℤ → ℤ → ℤ
or_old none old = old
or_old (some d) old = d

abbrev pub checked : (ℤ → Bool) → Option ℤ → Option ℤ
checked test none = none
checked test (some d) = if test d then some d else none

-- The trace log directory: the field, else the first of the list if that is not "".
unfoldable pub file_tracelog_dir : FileConfig → Bytes → Bytes
file_tracelog_dir fc old =
    if is_empty fc.tracelog_dir
    then elim fc.tracelog [ [] ↦ old | dir ∷ _ ↦ set_text dir old ]
    else fc.tracelog_dir

-- `applyFileConfig`; a nil configuration changes nothing.
unfoldable pub apply_file_config : Option FileConfig → Config → Config
apply_file_config none cfg = cfg
apply_file_config (some fc) cfg = record {
  targets = if is_empty fc.targets then cfg.targets else fc.targets;
  tracelog_dir = file_tracelog_dir fc cfg.tracelog_dir;
  min_delay = or_old (parsed parse_duration is_natural fc.min_delay) cfg.min_delay;
  trace_lookback_days = or_old (checked is_natural fc.trace_lookback_days) cfg.trace_lookback_days;
  scan_interval = or_old (parsed parse_duration is_positive fc.scan_interval) cfg.scan_interval;
  scan_workers = or_old (checked is_positive (some fc.scan_workers)) cfg.scan_workers;
  reload_secret = set_text fc.reload_secret cfg.reload_secret;
  discovery_interval =
      or_old (parsed parse_duration is_positive fc.discovery_interval) cfg.discovery_interval;
  listen_addr = set_text fc.listen_addr cfg.listen_addr;
  scan_timeout = or_old (parsed parse_duration is_positive fc.scan_timeout) cfg.scan_timeout;
  max_files_per_dir = or_old fc.max_files_per_dir cfg.max_files_per_dir;
  max_stat_files = or_old fc.max_stat_files cfg.max_stat_files;
}

-- `os.Getenv`: a variable that is not set is "".
abbrev pub Env : Type 0
Env = Bytes → Bytes

module _ (env : Env) where
  abbrev pub env_duration : (ℤ → Bool) → Bytes → ℤ → ℤ
  env_duration test name = or_old (parsed parse_duration test (env name))

  abbrev pub env_int : (ℤ → Bool) → Bytes → ℤ → ℤ
  env_int test name = or_old (parsed parse_int test (env name))

  -- `applyEnvOverrides`.
  unfoldable pub apply_env_overrides : Config → Config
  apply_env_overrides cfg = record {
    targets = cfg.targets;
    tracelog_dir = set_text (env (codes "TRACELOG_DIR")) cfg.tracelog_dir;
    min_delay = env_duration is_natural (codes "MIN_DELAY") cfg.min_delay;
    trace_lookback_days = env_int is_natural (codes "TRACE_LOOKBACK_DAYS") cfg.trace_lookback_days;
    scan_interval = env_duration is_positive (codes "SCAN_INTERVAL") cfg.scan_interval;
    scan_workers = env_int is_positive (codes "SCAN_WORKERS") cfg.scan_workers;
    reload_secret = set_text (env (codes "RELOAD_SECRET")) cfg.reload_secret;
    discovery_interval =
        env_duration is_positive (codes "DISCOVERY_INTERVAL") cfg.discovery_interval;
    listen_addr = set_text (env (codes "LISTEN_ADDR")) cfg.listen_addr;
    scan_timeout = env_duration is_positive (codes "SCAN_TIMEOUT") cfg.scan_timeout;
    max_files_per_dir = env_int is_natural (codes "MAX_FILES_PER_DIR") cfg.max_files_per_dir;
    max_stat_files = env_int is_natural (codes "MAX_STAT_FILES") cfg.max_stat_files;
  }

  -- The target of `BASE_PATH`, where no target is configured. The dash in the
  -- message is U+2014.
  unfoldable pub base_path_targets : Config → Result Config
  base_path_targets cfg =
      let base_path = env (codes "BASE_PATH") in
      let depth = or_old (parsed parse_int is_positive (env (codes "MAX_DEPTH"))) (pos 1) in
      let t : Target = record {
        base = base_path;
        label = [];
        dirs = [];
        max_depth = depth;
        pattern = [];
        include = [];
      } in
      if not (is_empty cfg.targets)
      then ok cfg
      else if is_empty base_path
      then err (
          codes "no targets configured "
          ++ (226
              ∷ 128
              ∷ 148
              ∷ codes " set CONFIG_FILE pointing to a targets YAML, or set BASE_PATH"))
      else ok (record cfg { targets = t ∷ [] })

module _ (read_file : Bytes → Result Bytes) (unmarshal : Bytes → Result FileConfig) where
  -- `loadYAMLConfig`; the YAML library is a parameter.
  unfoldable pub load_yaml_config : Bytes → Result FileConfig
  load_yaml_config path = elim (read_file path) [
    | err e ↦ err (codes "read: " ++ e)
    | ok text ↦ elim (unmarshal text) [ err e ↦ err (codes "parse: " ++ e) | ok fc ↦ ok fc ]
  ]

  -- The file layer.
  unfoldable pub file_layer : Env → Config → Result Config
  unfolding load_yaml_config
  file_layer env cfg =
      let path = env (codes "CONFIG_FILE") in
      if is_empty path then ok cfg else elim (load_yaml_config path) [
        | err e ↦ err (codes "CONFIG_FILE " ++ (quote_text path ++ (codes ": " ++ e)))
        | ok fc ↦ ok (apply_file_config (some fc) cfg)
      ]

-- A target that is neither explicit in depth nor has a pattern is searched one level deep.
unfoldable pub default_max_depth : Target → Target
default_max_depth t =
    if not (ltb_ℤ t.max_depth (pos 0) || ltb_ℤ (pos 0) t.max_depth) && is_empty t.pattern
    then record t { max_depth = pos 1 }
    else t

-- `generateSecret`, from what `rand.Read` fills its 16 bytes with.
unfoldable pub generate_secret : Result Bytes → Result Bytes
unfolding hex
generate_secret (err e) = err e
generate_secret (ok bytes) = ok (hex bytes)

unfoldable pub with_secret : Result Bytes → Config → Result Config
unfolding generate_secret
with_secret random cfg =
    if not (is_empty cfg.reload_secret) then ok cfg else elim (generate_secret random) [
      | err e ↦ err (codes "failed to generate RELOAD_SECRET: " ++ e)
      | ok secret ↦ ok (record cfg { reload_secret = secret })
    ]

-- `LoadConfig`; `random` is what `rand.Read` gives.
unfoldable pub load_config :
    Env → (Bytes → Result Bytes) → (Bytes → Result FileConfig) → Result Bytes → Result Config
load_config env read_file unmarshal random = do
  from_file ← file_layer read_file unmarshal env defaults
  with_targets ← base_path_targets env (apply_env_overrides env from_file)
  with_secret random (record with_targets { targets = map default_max_depth with_targets.targets })
