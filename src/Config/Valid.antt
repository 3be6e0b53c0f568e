-- ===== src/Config/Valid.antt =====
-- What holds of every configuration that `LoadConfig` returns.
use directory_exporter.Common.{
  ℤ, pos, ◌≤ℤ◌, false, List, [], codes, map, arith, ◌∷◌, Option, some, Bytes, is_empty, ◌≡◌, ◌≢◌,
  ◌⊎◌, inl, inr, refl, All, Bool-cases, sym, subst,
}
use directory_exporter.Types.{Target}
use directory_exporter.Go.Os.{Result, ok, err, Result-cases, ok_steps}
use directory_exporter.Go.Strconv.{parse_int, hex}
use directory_exporter.Go.Duration.{parse_duration}
use directory_exporter.Config.{
  FileConfig, Config, Env, defaults, or_old, checked, parsed, set_text, is_positive, is_natural,
  apply_env_overrides, apply_file_config, file_layer, load_yaml_config, base_path_targets,
  default_max_depth, with_secret, load_config,
}

-- The numbers that the layers keep in range, whatever they are given.
pub record IsSane (cfg : Config) : Type 0 where
  pub scan_interval : pos 1 ≤ℤ cfg.scan_interval
  pub scan_timeout : pos 1 ≤ℤ cfg.scan_timeout
  pub discovery_interval : pos 1 ≤ℤ cfg.discovery_interval
  pub scan_workers : pos 1 ≤ℤ cfg.scan_workers
  pub min_delay : pos 0 ≤ℤ cfg.min_delay
  pub trace_lookback_days : pos 0 ≤ℤ cfg.trace_lookback_days
  pub listen_addr : is_empty cfg.listen_addr ≡ false

-- A target whose depth is set, or that has a pattern to take it from.
abbrev pub HasDepth : Target → Type 0
HasDepth t = (t.max_depth ≢ pos 0) ⊎ (is_empty t.pattern ≡ false)

parsed_positive :
    (parse : Bytes → Option ℤ) (text : Bytes) (old : ℤ)
    → pos 1 ≤ℤ old
    → pos 1 ≤ℤ or_old (parsed parse is_positive text) old
unfolding parsed
parsed_positive parse text old h = ground arith

parsed_natural :
    (parse : Bytes → Option ℤ) (text : Bytes) (old : ℤ)
    → pos 0 ≤ℤ old
    → pos 0 ≤ℤ or_old (parsed parse is_natural text) old
unfolding parsed
parsed_natural parse text old h = ground arith

checked_natural :
    (v : Option ℤ) (old : ℤ) → pos 0 ≤ℤ old → pos 0 ≤ℤ or_old (checked is_natural v) old
checked_natural v old h = ground arith

checked_positive :
    (v : ℤ) (old : ℤ) → pos 1 ≤ℤ old → pos 1 ≤ℤ or_old (checked is_positive (some v)) old
checked_positive v old h = ground arith

set_text-filled : (text old : Bytes) → is_empty old ≡ false → is_empty (set_text text old) ≡ false
set_text-filled text old h = ground arith

defaults-IsSane : IsSane defaults
unfolding defaults
defaults-IsSane = ground arith

file-IsSane :
    (fc : FileConfig) (cfg : Config) → IsSane cfg → IsSane (apply_file_config (some fc) cfg)
unfolding apply_file_config
file-IsSane fc cfg s = record {
  scan_interval = parsed_positive parse_duration fc.scan_interval _ s.scan_interval;
  scan_timeout = parsed_positive parse_duration fc.scan_timeout _ s.scan_timeout;
  discovery_interval = parsed_positive parse_duration fc.discovery_interval _ s.discovery_interval;
  scan_workers = checked_positive fc.scan_workers _ s.scan_workers;
  min_delay = parsed_natural parse_duration fc.min_delay _ s.min_delay;
  trace_lookback_days = checked_natural fc.trace_lookback_days _ s.trace_lookback_days;
  listen_addr = set_text-filled fc.listen_addr _ s.listen_addr;
}

env-IsSane : (env : Env) (cfg : Config) → IsSane cfg → IsSane (apply_env_overrides env cfg)
unfolding apply_env_overrides
env-IsSane env cfg s = record {
  scan_interval = parsed_positive parse_duration (env (codes "SCAN_INTERVAL")) _ s.scan_interval;
  scan_timeout = parsed_positive parse_duration (env (codes "SCAN_TIMEOUT")) _ s.scan_timeout;
  discovery_interval =
      parsed_positive parse_duration (env (codes "DISCOVERY_INTERVAL")) _ s.discovery_interval;
  scan_workers = parsed_positive parse_int (env (codes "SCAN_WORKERS")) _ s.scan_workers;
  min_delay = parsed_natural parse_duration (env (codes "MIN_DELAY")) _ s.min_delay;
  trace_lookback_days =
      parsed_natural parse_int (env (codes "TRACE_LOOKBACK_DAYS")) _ s.trace_lookback_days;
  listen_addr = set_text-filled (env (codes "LISTEN_ADDR")) _ s.listen_addr;
}

default_max_depth-HasDepth : (t : Target) → HasDepth (default_max_depth t)
unfolding default_max_depth
default_max_depth-HasDepth t = ground arith

map-HasDepth : (ts : List Target) → All HasDepth (map default_max_depth ts)
map-HasDepth [] = tt
map-HasDepth (t ∷ ts) = (default_max_depth-HasDepth t, map-HasDepth ts)

map-filled : (ts : List Target) → is_empty (map default_max_depth ts) ≡ is_empty ts
map-filled [] = refl
map-filled (t ∷ ts) = refl

module _ (env : Env) (read_file : Bytes → Result Bytes)
    (unmarshal : Bytes → Result FileConfig) where
  -- The file layer leaves the configuration alone or applies a file.
  file_layer_ok :
      (old cfg : Config)
      → file_layer read_file unmarshal env old ≡ ok cfg
      → (cfg ≡ old) ⊎ ((fc : FileConfig) × (cfg ≡ apply_file_config (some fc) old))
  unfolding file_layer
  file_layer_ok old cfg h = elim (Bool-cases (is_empty (env (codes "CONFIG_FILE")))) [
    | inl unset ↦ inl (ground arith)
    | inr set ↦
        elim (Result-cases (load_yaml_config read_file unmarshal (env (codes "CONFIG_FILE")))) [
          | inl (e, p) ↦ absurd (ground arith)
          | inr (fc, p) ↦ inr (fc, ground arith)
        ]
  ]

  file_layer-IsSane :
      (cfg : Config) → file_layer read_file unmarshal env defaults ≡ ok cfg → IsSane cfg
  file_layer-IsSane cfg h = elim (file_layer_ok defaults cfg h) [
    | inl same ↦ subst IsSane (sym same) defaults-IsSane
    | inr (fc, applied) ↦ subst IsSane (sym applied) (file-IsSane fc defaults defaults-IsSane)
  ]

-- The targets are there, and all else but the targets is kept.
base_path_targets_ok :
    (env : Env) (old cfg : Config)
    → base_path_targets env old ≡ ok cfg
    → IsSane old
    → IsSane cfg × (is_empty cfg.targets ≡ false)
unfolding base_path_targets
base_path_targets_ok env old cfg h s = ground arith

hex-filled : (bytes : Bytes) → is_empty bytes ≡ false → is_empty (hex bytes) ≡ false
unfolding hex
hex-filled [] h = h
hex-filled (b ∷ bs) h = refl

with_secret_ok :
    (random : Result Bytes) (old cfg : Config)
    → ((bytes : Bytes) → random ≡ ok bytes → is_empty bytes ≡ false)
    → with_secret random old ≡ ok cfg
    → IsSane old
    → IsSane cfg × (cfg.targets ≡ old.targets) × (is_empty cfg.reload_secret ≡ false)
unfolding with_secret
with_secret_ok (err e) old cfg filled h s = ground arith
with_secret_ok (ok bytes) old cfg filled h s = ground (arith, hex-filled bytes (filled bytes refl))

-- A configuration that can be run with: its numbers are in range, it has a target, each target has a
-- depth or a pattern, and there is a secret.
pub record IsValid (cfg : Config) : Type 0 where
  pub sane : IsSane cfg
  pub targets : is_empty cfg.targets ≡ false
  pub depths : All HasDepth cfg.targets
  pub secret : is_empty cfg.reload_secret ≡ false

-- Whatever the file and the environment hold, a configuration that `LoadConfig` returns is valid: the
-- three intervals and the number of workers are positive, the delay and the lookback are not
-- negative, the address and the reload secret are not empty, and there is at least one target, each
-- with a depth that is not 0 or with a pattern. The random bytes, if they are given, are not none.
pub load_config-IsValid :
    (env : Env) (read_file : Bytes → Result Bytes) (unmarshal : Bytes → Result FileConfig)
    (random : Result Bytes) (cfg : Config)
    → ((bytes : Bytes) → random ≡ ok bytes → is_empty bytes ≡ false)
    → load_config env read_file unmarshal random ≡ ok cfg
    → IsValid cfg
unfolding load_config
load_config-IsValid env read_file unmarshal random cfg filled h =
    let (from_file, p, h₁) = ok_steps (file_layer read_file unmarshal env defaults) _ cfg h in
    let (with_targets, q, r) =
      ok_steps (base_path_targets env (apply_env_overrides env from_file)) _ cfg h₁ in
    let (sane, there) =
      base_path_targets_ok env _ with_targets q
        (env-IsSane env from_file (file_layer-IsSane env read_file unmarshal from_file p)) in
    let old : Config = record with_targets {
      targets = map default_max_depth with_targets.targets;
    } in
    let old_sane : IsSane old = record {
      scan_interval = sane.scan_interval;
      scan_timeout = sane.scan_timeout;
      discovery_interval = sane.discovery_interval;
      scan_workers = sane.scan_workers;
      min_delay = sane.min_delay;
      trace_lookback_days = sane.trace_lookback_days;
      listen_addr = sane.listen_addr;
    } in
    let (done, targets, secret) = with_secret_ok random old cfg filled r old_sane in
    record {
      sane = done;
      targets = rw (targets, map-filled) there;
      depths = rw targets (map-HasDepth with_targets.targets);
      secret = secret;
    }
