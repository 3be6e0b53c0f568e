-- ===== src/Config/Precedence.antt =====
-- Which layer a setting is taken from.
use directory_exporter.Common.{
  Bytes, is_empty, if◌then◌else◌, ℤ, List, [], codes, arith, ◌∷◌, Option, none, some, ◌≡◌,
}
use directory_exporter.Go.Strconv.{parse_int}
use directory_exporter.Go.Duration.{parse_duration}
use directory_exporter.Config.{
  FileConfig, Config, Env, defaults, checked, parsed, is_positive, is_natural, apply_env_overrides,
  apply_file_config, file_tracelog_dir,
}

-- The first value that is given, else the default.
abbrev pub first_given : List (Option ℤ) → ℤ → ℤ
first_given [] d = d
first_given (none ∷ vs) d = first_given vs d
first_given (some v ∷ vs) d = v

-- The first text that is not empty, else the default.
abbrev pub first_text : List Bytes → Bytes → Bytes
first_text [] d = d
first_text (t ∷ ts) d = if is_empty t then first_text ts d else t

abbrev pub first_of : List Bytes → Bytes
first_of [] = []
first_of (t ∷ ts) = t

-- Each setting that is a duration or a number is the valid value of its variable in the environment,
-- else the valid value of the file, else the default. The caps of the file are taken as they are.
pub record IsLayered (env : Env) (fc : FileConfig) (cfg : Config) : Type 0 where
  pub scan_interval :
      cfg.scan_interval
      ≡ first_given
          (parsed parse_duration is_positive (env (codes "SCAN_INTERVAL"))
            ∷ parsed parse_duration is_positive fc.scan_interval
            ∷ [])
          defaults.scan_interval
  pub scan_timeout :
      cfg.scan_timeout
      ≡ first_given
          (parsed parse_duration is_positive (env (codes "SCAN_TIMEOUT"))
            ∷ parsed parse_duration is_positive fc.scan_timeout
            ∷ [])
          defaults.scan_timeout
  pub discovery_interval :
      cfg.discovery_interval
      ≡ first_given
          (parsed parse_duration is_positive (env (codes "DISCOVERY_INTERVAL"))
            ∷ parsed parse_duration is_positive fc.discovery_interval
            ∷ [])
          defaults.discovery_interval
  pub min_delay :
      cfg.min_delay
      ≡ first_given
          (parsed parse_duration is_natural (env (codes "MIN_DELAY"))
            ∷ parsed parse_duration is_natural fc.min_delay
            ∷ [])
          defaults.min_delay
  pub scan_workers :
      cfg.scan_workers
      ≡ first_given
          (parsed parse_int is_positive (env (codes "SCAN_WORKERS"))
            ∷ checked is_positive (some fc.scan_workers)
            ∷ [])
          defaults.scan_workers
  pub trace_lookback_days :
      cfg.trace_lookback_days
      ≡ first_given
          (parsed parse_int is_natural (env (codes "TRACE_LOOKBACK_DAYS"))
            ∷ checked is_natural fc.trace_lookback_days
            ∷ [])
          defaults.trace_lookback_days
  pub max_files_per_dir :
      cfg.max_files_per_dir
      ≡ first_given
          (parsed parse_int is_natural (env (codes "MAX_FILES_PER_DIR"))
            ∷ fc.max_files_per_dir
            ∷ [])
          defaults.max_files_per_dir
  pub max_stat_files :
      cfg.max_stat_files
      ≡ first_given
          (parsed parse_int is_natural (env (codes "MAX_STAT_FILES")) ∷ fc.max_stat_files ∷ [])
          defaults.max_stat_files
  pub listen_addr :
      cfg.listen_addr
      ≡ first_text (env (codes "LISTEN_ADDR") ∷ fc.listen_addr ∷ []) defaults.listen_addr
  pub tracelog_dir :
      cfg.tracelog_dir
      ≡ first_text
          (env (codes "TRACELOG_DIR") ∷ fc.tracelog_dir ∷ first_of fc.tracelog ∷ [])
          defaults.tracelog_dir

-- The file and then the environment, applied to the defaults.
pub layers-IsLayered :
    (env : Env) (fc : FileConfig)
    → IsLayered env fc (apply_env_overrides env (apply_file_config (some fc) defaults))
unfolding apply_env_overrides apply_file_config file_tracelog_dir
layers-IsLayered env fc = ground arith
