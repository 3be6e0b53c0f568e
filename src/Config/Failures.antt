-- ===== src/Config/Failures.antt =====
-- When `LoadConfig` fails.
use directory_exporter.Common.{
  true, false, map, some, Bytes, Error, codes, is_empty, ◌≡◌, ◌⊎◌, ◌↔◌, inl, inr, arith, refl, sym,
  ap, ◌∙◌, Bool-cases,
}
use directory_exporter.Go.Os.{Result, ok, err, Result-cases}
use directory_exporter.Config.{
  FileConfig, Config, Env, defaults, file_layer, load_yaml_config, apply_file_config,
  apply_env_overrides, base_path_targets, default_max_depth, generate_secret, with_secret,
  load_config,
}
use directory_exporter.Config.Loaded.{Applied, unset, set, no_file-defaults, file_layer-Applied}

-- Why `LoadConfig` fails: its file cannot be read or parsed, no target is configured and BASE_PATH is
-- not set, or there is no secret and no random bytes for one.
pub data Failure (env : Env) (read_file : Bytes → Result Bytes)
    (unmarshal : Bytes → Result FileConfig) (random : Result Bytes) : Type 0 where
  no_config :
      (e : Error)
      → is_empty (env (codes "CONFIG_FILE")) ≡ false
      → load_yaml_config read_file unmarshal (env (codes "CONFIG_FILE")) ≡ err e
      → Failure env read_file unmarshal random
  no_targets :
      (fc : FileConfig)
      → Applied env read_file unmarshal fc
      → is_empty fc.targets ≡ true
      → is_empty (env (codes "BASE_PATH")) ≡ true
      → Failure env read_file unmarshal random
  no_secret :
      (fc : FileConfig) (e : Error)
      → Applied env read_file unmarshal fc
      → is_empty fc.targets ≡ false ⊎ is_empty (env (codes "BASE_PATH")) ≡ false
      → is_empty (env (codes "RELOAD_SECRET")) ≡ true
      → is_empty fc.reload_secret ≡ true
      → random ≡ err e
      → Failure env read_file unmarshal random

-- What the layers make of a file.
abbrev layered : Env → FileConfig → Config
layered env fc = apply_env_overrides env (apply_file_config (some fc) defaults)

layered-targets :
    (env : Env) (fc : FileConfig) → is_empty (layered env fc).targets ≡ is_empty fc.targets
unfolding apply_env_overrides apply_file_config defaults
layered-targets env fc = ground arith

layered-secret :
    (env : Env) (fc : FileConfig)
    → (is_empty (layered env fc).reload_secret ≡ true)
      ↔ ((is_empty (env (codes "RELOAD_SECRET")) ≡ true) × (is_empty fc.reload_secret ≡ true))
unfolding apply_env_overrides apply_file_config defaults
layered-secret env fc = (λ h. (ground arith, ground arith), λ (h, k). ground arith)

module _ (env : Env) where
  base_path_targets_fails :
      (cfg : Config)
      → is_empty cfg.targets ≡ true
      → is_empty (env (codes "BASE_PATH")) ≡ true
      → (e : Error) × (base_path_targets env cfg ≡ err e)
  unfolding base_path_targets
  base_path_targets_fails cfg p q = elim (Result-cases (base_path_targets env cfg)) [
    | inl (e, r) ↦ (e, r)
    | inr (new, r) ↦ absurd (ground arith)
  ]

  base_path_targets_err :
      (cfg : Config) (e : Error)
      → base_path_targets env cfg ≡ err e
      → (is_empty cfg.targets ≡ true) × (is_empty (env (codes "BASE_PATH")) ≡ true)
  unfolding base_path_targets
  base_path_targets_err cfg e h = ground arith

  base_path_targets_ok :
      (cfg : Config)
      → (is_empty cfg.targets ≡ false) ⊎ (is_empty (env (codes "BASE_PATH")) ≡ false)
      → (new : Config) × (base_path_targets env cfg ≡ ok new)
        × (new.reload_secret ≡ cfg.reload_secret)
  unfolding base_path_targets
  base_path_targets_ok cfg o = elim (Result-cases (base_path_targets env cfg)) [
    | inl (e, r) ↦ absurd (ground arith)
    | inr (new, r) ↦ (new, r, ground arith)
  ]

  base_path_targets_got :
      (cfg new : Config)
      → base_path_targets env cfg ≡ ok new
      → ((is_empty cfg.targets ≡ false) ⊎ (is_empty (env (codes "BASE_PATH")) ≡ false))
        × (new.reload_secret ≡ cfg.reload_secret)
  unfolding base_path_targets
  base_path_targets_got cfg new h = elim (Bool-cases (is_empty cfg.targets)) [
    | inl bare ↦ (inr (ground arith), ground arith)
    | inr there ↦ (inl there, ground arith)
  ]

with_secret_err :
    (random : Result Bytes) (cfg : Config) (e : Error)
    → with_secret random cfg ≡ err e
    → (is_empty cfg.reload_secret ≡ true) × (f : Error) × (random ≡ err f)
unfolding with_secret generate_secret
with_secret_err (err f) cfg e h = (ground arith, f, refl)
with_secret_err (ok bytes) cfg e h = absurd (ground arith)

with_secret_fails :
    (random : Result Bytes) (cfg : Config) (f : Error)
    → is_empty cfg.reload_secret ≡ true
    → random ≡ err f
    → (e : Error) × (with_secret random cfg ≡ err e)
unfolding with_secret generate_secret
with_secret_fails random cfg f p q = elim (Result-cases (with_secret random cfg)) [
  | inl (e, r) ↦ (e, r)
  | inr (new, r) ↦ absurd (ground arith)
]

module _ (env : Env) (read_file : Bytes → Result Bytes) (unmarshal : Bytes → Result FileConfig)
    (random : Result Bytes) where
  abbrev pub load : Result Config
  load = load_config env read_file unmarshal random

  -- A file that is applied is there.
  Applied-file_layer :
      {fc : FileConfig}
      → Applied env read_file unmarshal fc
      → file_layer read_file unmarshal env defaults ≡ ok (apply_file_config (some fc) defaults)
  unfolding file_layer
  Applied-file_layer (unset p) = rw p (ap ok (sym no_file-defaults))
  Applied-file_layer (set fc p q) = rw (p, q) refl

  file_layer_fails :
      (e : Error)
      → is_empty (env (codes "CONFIG_FILE")) ≡ false
      → load_yaml_config read_file unmarshal (env (codes "CONFIG_FILE")) ≡ err e
      → (f : Error) × (file_layer read_file unmarshal env defaults ≡ err f)
  unfolding file_layer
  file_layer_fails e p q = elim (Result-cases (file_layer read_file unmarshal env defaults)) [
    | inl (f, r) ↦ (f, r)
    | inr (new, r) ↦ absurd (ground arith)
  ]

  file_layer_err :
      (e : Error)
      → file_layer read_file unmarshal env defaults ≡ err e
      → Failure env read_file unmarshal random
  unfolding file_layer
  file_layer_err e h = elim (Bool-cases (is_empty (env (codes "CONFIG_FILE")))) [
    | inl p ↦ absurd (ground arith)
    | inr p ↦
        elim (Result-cases (load_yaml_config read_file unmarshal (env (codes "CONFIG_FILE")))) [
          | inl (f, q) ↦ no_config f p q
          | inr (fc, q) ↦ absurd (ground arith)
        ]
  ]

  Failure-fails : Failure env read_file unmarshal random → (e : Error) × (load ≡ err e)
  unfolding load_config
  Failure-fails (no_config e p q) =
      let (f, r) = file_layer_fails e p q in (f, rw (r, load_config) refl)
  Failure-fails (no_targets fc applied p q) =
      let r = Applied-file_layer applied in
      let (e, s) = base_path_targets_fails env (layered env fc) (layered-targets env fc ∙ p) q in
      (e, rw (r, load_config, s) refl)
  Failure-fails (no_secret fc f applied o p q none_left) =
      let r = Applied-file_layer applied in
      let (new, s, same) =
        base_path_targets_ok env (layered env fc)
          (elim o [ inl t ↦ inl (layered-targets env fc ∙ t) | inr b ↦ inr b ]) in
      let unset_secret : is_empty new.reload_secret ≡ true =
        ap is_empty same ∙ (layered-secret env fc).1 (p, q) in
      let (e, t) =
        with_secret_fails random (record new { targets = map default_max_depth new.targets }) f
          unset_secret none_left in
      (e, rw (r, load_config, s, t) refl)

  load_config-Failure : (e : Error) → load ≡ err e → Failure env read_file unmarshal random
  unfolding load_config
  load_config-Failure e h = elim (Result-cases (file_layer read_file unmarshal env defaults)) [
    | inl (f, p) ↦ file_layer_err f p
    | inr (file, p) ↦
        let (fc, applied, same) = file_layer-Applied env read_file unmarshal file p in
        elim (Result-cases (base_path_targets env (layered env fc))) [
          | inl (f, q) ↦
              let (bare, no_path) = base_path_targets_err env (layered env fc) f q in
              no_targets fc applied (sym (layered-targets env fc) ∙ bare) no_path
          | inr (new, q) ↦
              let ends : with_secret random
                    (record new { targets = map default_max_depth new.targets })
                  ≡ err e =
                sym (rw (Applied-file_layer applied, load_config, q) refl) ∙ h in
              let (bare, f, none_left) = with_secret_err random _ e ends in
              let (there, same_secret) = base_path_targets_got env (layered env fc) new q in
              let (p', q') = (layered-secret env fc).0 (ap is_empty (sym same_secret) ∙ bare) in
              no_secret fc f applied
                (elim there [ inl t ↦ inl (sym (layered-targets env fc) ∙ t) | inr b ↦ inr b ]) p'
                q' none_left
        ]
  ]

  -- `LoadConfig` fails exactly where the file that CONFIG_FILE names cannot be read or parsed, where
  -- neither the file has a target nor BASE_PATH is set, or where, with targets, neither RELOAD_SECRET
  -- nor the file has a secret and no random bytes are given for one.
  pub load_config_fails_iff :
      ((e : Error) × (load ≡ err e)) ↔ Failure env read_file unmarshal random
  load_config_fails_iff = (λ (e, h). load_config-Failure e h, Failure-fails)
