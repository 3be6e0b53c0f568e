-- ===== src/Config/Loaded.antt =====
-- `LoadConfig` as a whole: where its settings come from.
use directory_exporter.Common.{
  pos, true, false, List, [], map, none, some, Bytes, codes, is_empty, ◌≡◌, inl, inr, arith, refl,
  sym, ◌∙◌, subst, Bool-cases,
}
use directory_exporter.Types.{Target}
use directory_exporter.Go.Os.{Result, ok, Result-cases, ok_steps}
use directory_exporter.Config.{
  FileConfig, Config, Env, defaults, file_layer, load_yaml_config, apply_file_config,
  apply_env_overrides, base_path_targets, default_max_depth, generate_secret, with_secret,
  load_config, parsed, file_tracelog_dir,
}
use directory_exporter.Config.Precedence.{IsLayered, layers-IsLayered}

-- A file that sets nothing.
abbrev pub no_file : FileConfig
no_file = record {
  targets = [];
  tracelog = [];
  tracelog_dir = [];
  min_delay = [];
  trace_lookback_days = none;
  listen_addr = [];
  reload_secret = [];
  scan_interval = [];
  scan_workers = pos 0;
  scan_timeout = [];
  discovery_interval = [];
  max_files_per_dir = none;
  max_stat_files = none;
}

pub no_file-defaults : apply_file_config (some no_file) defaults ≡ defaults
unfolding apply_file_config defaults parsed file_tracelog_dir
no_file-defaults = refl

-- What comes behind the layers changes only the targets and an empty secret.
record Keeps (old cfg : Config) : Type 0 where
  scan_interval : cfg.scan_interval ≡ old.scan_interval
  scan_timeout : cfg.scan_timeout ≡ old.scan_timeout
  discovery_interval : cfg.discovery_interval ≡ old.discovery_interval
  min_delay : cfg.min_delay ≡ old.min_delay
  scan_workers : cfg.scan_workers ≡ old.scan_workers
  trace_lookback_days : cfg.trace_lookback_days ≡ old.trace_lookback_days
  max_files_per_dir : cfg.max_files_per_dir ≡ old.max_files_per_dir
  max_stat_files : cfg.max_stat_files ≡ old.max_stat_files
  listen_addr : cfg.listen_addr ≡ old.listen_addr
  tracelog_dir : cfg.tracelog_dir ≡ old.tracelog_dir

base_path_targets-Keeps :
    (env : Env) (old cfg : Config) → base_path_targets env old ≡ ok cfg → Keeps old cfg
unfolding base_path_targets
base_path_targets-Keeps env old cfg h = ground arith

with_secret-Keeps :
    (random : Result Bytes) (old cfg : Config) → with_secret random old ≡ ok cfg → Keeps old cfg
unfolding with_secret generate_secret
with_secret-Keeps random old cfg h = ground arith

targets-Keeps : (old : Config) (ts : List Target) → Keeps old (record old { targets = ts })
targets-Keeps old ts = ground arith

Keeps-IsLayered :
    {env : Env} {fc : FileConfig} {old cfg : Config}
    → Keeps old cfg
    → IsLayered env fc old
    → IsLayered env fc cfg
Keeps-IsLayered k l = record {
  scan_interval = k.scan_interval ∙ l.scan_interval;
  scan_timeout = k.scan_timeout ∙ l.scan_timeout;
  discovery_interval = k.discovery_interval ∙ l.discovery_interval;
  min_delay = k.min_delay ∙ l.min_delay;
  scan_workers = k.scan_workers ∙ l.scan_workers;
  trace_lookback_days = k.trace_lookback_days ∙ l.trace_lookback_days;
  max_files_per_dir = k.max_files_per_dir ∙ l.max_files_per_dir;
  max_stat_files = k.max_stat_files ∙ l.max_stat_files;
  listen_addr = k.listen_addr ∙ l.listen_addr;
  tracelog_dir = k.tracelog_dir ∙ l.tracelog_dir;
}

module _ (env : Env) (read_file : Bytes → Result Bytes)
    (unmarshal : Bytes → Result FileConfig) where
  -- The file that is applied: that of CONFIG_FILE, or one that sets nothing if that is not set.
  pub data Applied : FileConfig → Type 0 where
    unset : is_empty (env (codes "CONFIG_FILE")) ≡ true → Applied no_file
    set :
        (fc : FileConfig)
        → is_empty (env (codes "CONFIG_FILE")) ≡ false
        → load_yaml_config read_file unmarshal (env (codes "CONFIG_FILE")) ≡ ok fc
        → Applied fc

  pub file_layer-Applied :
      (cfg : Config)
      → file_layer read_file unmarshal env defaults ≡ ok cfg
      → (fc : FileConfig) × Applied fc × (cfg ≡ apply_file_config (some fc) defaults)
  unfolding file_layer
  file_layer-Applied cfg h = elim (Bool-cases (is_empty (env (codes "CONFIG_FILE")))) [
    | inl p ↦
        (no_file, unset p, let same : cfg ≡ defaults = ground arith in same ∙ sym no_file-defaults)
    | inr p ↦
        elim (Result-cases (load_yaml_config read_file unmarshal (env (codes "CONFIG_FILE")))) [
          | inl (e, q) ↦ absurd (ground arith)
          | inr (fc, q) ↦ (fc, set fc p q, ground arith)
        ]
  ]

  -- Where `LoadConfig` succeeds, the file that CONFIG_FILE names, if any, could be read, and each
  -- setting but the targets and the secret is the valid value of its environment variable, else the
  -- valid value of the file, else the default.
  pub load_config-IsLayered :
      (random : Result Bytes) (cfg : Config)
      → load_config env read_file unmarshal random ≡ ok cfg
      → (fc : FileConfig) × Applied fc × IsLayered env fc cfg
  unfolding load_config
  load_config-IsLayered random cfg h =
      let (from_file, p, h₁) = ok_steps (file_layer read_file unmarshal env defaults) _ cfg h in
      let (with_targets, q, r) =
        ok_steps (base_path_targets env (apply_env_overrides env from_file)) _ cfg h₁ in
      let (fc, applied, same) = file_layer-Applied from_file p in
      let layered =
        subst (λ f. IsLayered env fc (apply_env_overrides env f)) (sym same)
          (layers-IsLayered env fc) in
      let targets = Keeps-IsLayered (base_path_targets-Keeps env _ with_targets q) layered in
      (
        fc,
        applied,
        Keeps-IsLayered (with_secret-Keeps random _ cfg r) (
            Keeps-IsLayered
              (targets-Keeps with_targets (map default_max_depth with_targets.targets)) targets),
      )
