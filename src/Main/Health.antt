-- ===== src/Main/Health.antt =====
-- What the health check asks against what the server listens on.
use directory_exporter.Common.{
  Bool, All, All-append, Option, Option-cases, none, some, [], ◌∷◌, ◌==◌, if◌then◌else◌, ℕ, true,
  false, List, ◌++◌, Bytes, codes, is_empty, ◌≡◌, ◌⊎◌, ◌↔◌, inl, inr, arith, refl, sym, ap, ◌∙◌,
  Bool-cases,
}
use directory_exporter.Go.Os.{Result, ok, FileSystem, Result-cases, ok_steps}
use directory_exporter.Go.Strings.{trim_prefix, after_prefix}
use directory_exporter.Config.{
  Config, FileConfig, Env, defaults, file_layer, apply_env_overrides, base_path_targets,
  with_secret, load_config,
}
use directory_exporter.Main.{with_host, health_url, is_healthcheck, Serving, serving, start, main}

abbrev pub listen_variable : Bytes
listen_variable = codes "LISTEN_ADDR"

-- The text behind the last colon of an address.
abbrev pub port_of : Bytes → Option Bytes
port_of [] = none
port_of (c ∷ s) = elim (port_of s) [
  | some port ↦ some port
  | none ↦ if c == b':' then some s else none
]

abbrev pub until_slash : Bytes → Bytes
until_slash [] = []
until_slash (c ∷ s) = let rest = until_slash s in if c == b'/' then [] else c ∷ rest

-- The host and port that a URL names: what is behind the scheme, up to the next slash.
abbrev pub authority : Bytes → Bytes
authority url = until_slash (trim_prefix url (codes "http://"))

abbrev pub NoSlash : Bytes → Type 0
NoSlash = All (λ c. (c == b'/') ≡ false)

until_slash-append : (s t : Bytes) → NoSlash s → until_slash (s ++ b'/' ∷ t) ≡ s
until_slash-append [] t h = refl
until_slash-append (c ∷ s) t (here, h) = rw here (ap (λ r. c ∷ r) (until_slash-append s t h))

localhost-NoSlash : NoSlash (codes "localhost")
localhost-NoSlash = ground arith

default-NoSlash : NoSlash (codes ":9200")
default-NoSlash = ground arith

with_host-NoSlash : (s : Bytes) → NoSlash s → NoSlash (with_host s)
unfolding with_host
with_host-NoSlash [] h = tt
with_host-NoSlash (c ∷ s) h = elim (Bool-cases (c == b':')) [
  | inl colon ↦ rw colon (All-append _ (codes "localhost") (c ∷ s) localhost-NoSlash h)
  | inr other ↦ rw other h
]

port_of-colon :
    (c : ℕ) (s : Bytes) → (c == b':') ≡ true → (port : Bytes) × (port_of (c ∷ s) ≡ some port)
port_of-colon c s h = elim (Option-cases (port_of s)) [
  | inl p ↦ (s, rw p (rw h refl))
  | inr (port, p) ↦ (port, rw p refl)
]

port_of-append : (a t port : Bytes) → port_of t ≡ some port → port_of (a ++ t) ≡ some port
port_of-append [] t port h = h
port_of-append (c ∷ a) t port h = rw (port_of-append a t port h) refl

port_of_choice :
    (b : Bool) (s t : Bytes) → port_of s ≡ port_of t → port_of (if b then s else t) ≡ port_of t
port_of_choice true s t h = h
port_of_choice false s t h = refl

-- The host in front does not change the port.
port_of-with_host : (s : Bytes) → port_of (with_host s) ≡ port_of s
unfolding with_host
port_of-with_host [] = refl
port_of-with_host (c ∷ s) = elim (Bool-cases (c == b':')) [
  | inl colon ↦
      let (port, p) = port_of-colon c s colon in
      let behind = port_of-append (codes "localhost") (c ∷ s) port p ∙ sym p in
      port_of_choice (c == b':') (codes "localhost" ++ (c ∷ s)) (c ∷ s) behind
  | inr other ↦ rw other refl
]

health_url-authority :
    (env : Env) (addr : Bytes)
    → NoSlash addr
    → health_url env ≡ codes "http://" ++ (with_host addr ++ codes "/-/healthy")
    → port_of (authority (health_url env)) ≡ port_of addr
unfolding trim_prefix after_prefix
health_url-authority env addr plain h =
    ap (λ u. port_of (authority u)) h
    ∙ ap port_of
        (until_slash-append (with_host addr) (codes "-/healthy") (with_host-NoSlash addr plain))
    ∙ port_of-with_host addr

health_url-unset :
    (env : Env)
    → is_empty (env listen_variable) ≡ true
    → health_url env ≡ codes "http://" ++ (with_host (codes ":9200") ++ codes "/-/healthy")
unfolding health_url
health_url-unset env unset = rw unset refl

health_url-set :
    (env : Env)
    → is_empty (env listen_variable) ≡ false
    → health_url env ≡ codes "http://" ++ (with_host (env listen_variable) ++ codes "/-/healthy")
unfolding health_url
health_url-set env set = rw set refl

base_path_targets-listen_addr :
    (env : Env) (old cfg : Config)
    → base_path_targets env old ≡ ok cfg
    → cfg.listen_addr ≡ old.listen_addr
unfolding base_path_targets
base_path_targets-listen_addr env old cfg h = ground arith

with_secret-listen_addr :
    (random : Result Bytes) (old cfg : Config)
    → with_secret random old ≡ ok cfg
    → cfg.listen_addr ≡ old.listen_addr
unfolding with_secret
with_secret-listen_addr random old cfg h = ground arith

apply_env_overrides-listen_addr :
    (env : Env) (old : Config)
    → is_empty (env listen_variable) ≡ false
    → (apply_env_overrides env old).listen_addr ≡ env listen_variable
unfolding apply_env_overrides
apply_env_overrides-listen_addr env old set = rw set refl

module _ (args : List Bytes) (env : Env) (http_get : Bytes → Result ℕ) (fs : FileSystem)
    (unmarshal : Bytes → Result FileConfig) (random : Result Bytes) where
  -- A process that serves has loaded its configuration.
  pub main_loaded :
      (s : Serving)
      → main args env http_get fs unmarshal random ≡ serving s
      → (cfg : Config) × (load_config env fs.read_file unmarshal random ≡ ok cfg)
        × (start fs cfg ≡ s)
  unfolding main
  main_loaded s h = elim (Bool-cases (is_healthcheck args)) [
    | inl check ↦ absurd (ground arith)
    | inr other ↦ elim (Result-cases (load_config env fs.read_file unmarshal random)) [
      | inl (e, p) ↦ absurd (ground arith)
      | inr (cfg, p) ↦ (cfg, p, ground arith)
    ]
  ]

  load_config-listen_addr :
      (cfg : Config)
      → load_config env fs.read_file unmarshal random ≡ ok cfg
      → is_empty (env listen_variable) ≡ false
      → cfg.listen_addr ≡ env listen_variable
  unfolding load_config
  load_config-listen_addr cfg h set =
      let (from_file, p, h₁) = ok_steps (file_layer fs.read_file unmarshal env defaults) _ cfg h in
      let (with_targets, q, r) =
        ok_steps (base_path_targets env (apply_env_overrides env from_file)) _ cfg h₁ in
      with_secret-listen_addr random _ cfg r
      ∙ base_path_targets-listen_addr env (apply_env_overrides env from_file) with_targets q
      ∙ apply_env_overrides-listen_addr env from_file set

  -- The port being the text behind the last colon: where there is no slash in LISTEN_ADDR, the URL that
  -- the health check asks has the same port as the address of the server of a process in the same
  -- environment if and only if LISTEN_ADDR is set or the port of that address is 9200.
  pub health_url-port :
      (s : Serving)
      → NoSlash (env listen_variable)
      → main args env http_get fs unmarshal random ≡ serving s
      → (port_of (authority (health_url env)) ≡ port_of s.server.addr)
        ↔ ((is_empty (env listen_variable) ≡ false) ⊎ (port_of s.server.addr ≡ some (codes "9200")))
  unfolding start
  health_url-port s plain h =
      let (cfg, loaded, started) = main_loaded s h in
      let at_start : cfg.listen_addr ≡ s.server.addr = ap (λ t. t.server.addr) started in
      elim (Bool-cases (is_empty (env listen_variable))) [
        | inl unset ↦
            let asked =
              health_url-authority env (codes ":9200") default-NoSlash
                (health_url-unset env unset) in
            (
              λ same. inr (sym same ∙ asked),
              λ o. elim o [ inl set ↦ absurd (cc) | inr local ↦ asked ∙ sym local ],
            )
        | inr set ↦
            let asked =
              health_url-authority env (env listen_variable) plain (health_url-set env set) in
            (
              λ same. inl set,
              λ o. asked ∙ ap port_of (sym (load_config-listen_addr cfg loaded set) ∙ at_start),
            )
      ]
