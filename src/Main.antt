-- ===== src/Main.antt =====
-- main.go: the health check, and the start of the process up to the server. `http_get` is the status
-- of the response to a GET request, if there is one; the two dashes in messages are U+2014.
pub mod Health
pub mod Start
pub mod Process
pub mod Steps
pub mod Order
pub mod Ends
pub mod Inner
mod EndTests
mod Tests
use directory_exporter.Common.{
  ℕ, ◌*◌, ◌==◌, pos, Bool, false, not, List, [], ◌∷◌, ◌++◌, map, none, some, Bytes, codes, eqb,
  if◌then◌else◌, is_empty, length,
}
use directory_exporter.Types.{Target}
use directory_exporter.Go.Os.{Result, ok, err, FileSystem}
use directory_exporter.Go.Strings.{join}
use directory_exporter.Go.Slog.{LogLine, info, warn, error}
use directory_exporter.Config.{Config, FileConfig, Env, load_config, second}
use directory_exporter.Watch.Targets.{discover_targets}
use directory_exporter.Exporter.Loops.{Running, launch}
use directory_exporter.Exporter.Startup.{validation_log, discovery_log}
use directory_exporter.Metrics.Text.{decimal}

-- An address without a host is that of this host.
unfoldable pub with_host : Bytes → Bytes
with_host [] = []
with_host (c ∷ s) = if c == b':' then codes "localhost" ++ (c ∷ s) else c ∷ s

-- What the health check asks for.
unfoldable pub health_url : Env → Bytes
unfolding with_host
health_url env =
    let addr = env (codes "LISTEN_ADDR") in
    codes "http://"
    ++ (with_host (if is_empty addr then codes ":9200" else addr) ++ codes "/-/healthy")

-- The exit code of the health check.
unfoldable pub healthcheck : Env → (Bytes → Result ℕ) → ℕ
unfolding health_url
healthcheck env http_get = elim (http_get (health_url env)) [
  | err e ↦ 1
  | ok status ↦ if not (status == 200) then 1 else 0
]

abbrev pub is_healthcheck : List Bytes → Bool
is_healthcheck (program ∷ flag ∷ []) = eqb flag (codes "-healthcheck")
is_healthcheck _ = false

-- One round of the loop over the targets.
unfoldable pub configured_line : Target → LogLine
configured_line t =
    let values =
      if not (is_empty t.dirs)
      then (codes "base", t.base)
        ∷ (codes "dirs", b'[' ∷ (join t.dirs (codes " ") ++ codes "]"))
        ∷ (codes "mode", codes "explicit")
        ∷ []
      else if not (is_empty t.pattern)
      then (codes "base", t.base)
        ∷ (codes "pattern", t.pattern)
        ∷ (codes "max_depth", decimal t.max_depth)
        ∷ (codes "mode", codes "auto-discover-pattern")
        ∷ []
      else (codes "base", t.base)
        ∷ (codes "max_depth", decimal t.max_depth)
        ∷ (codes "mode", codes "auto-discover")
        ∷ [] in
    record { level = info; message = codes "target configured"; values = values }

-- A duration is printed as its nanoseconds.
unfoldable pub starting_line : Config → LogLine
starting_line cfg = record {
  level = info;
  message = codes "directory-exporter starting";
  values =
      (codes "targets", decimal (pos (length cfg.targets)))
      ∷ (codes "scan_interval", decimal cfg.scan_interval)
      ∷ (codes "scan_workers", decimal cfg.scan_workers)
      ∷ (codes "scan_timeout", decimal cfg.scan_timeout)
      ∷ (codes "max_files_per_dir", decimal cfg.max_files_per_dir)
      ∷ (codes "max_stat_files", decimal cfg.max_stat_files)
      ∷ (codes "tracelog_dir", cfg.tracelog_dir)
      ∷ (codes "min_delay", decimal cfg.min_delay)
      ∷ (codes "trace_lookback_days", decimal cfg.trace_lookback_days)
      ∷ (codes "listen_addr", cfg.listen_addr)
      ∷ [];
}

-- What is logged from the configuration on, up to the start of the loops.
unfoldable pub start_log : FileSystem → Config → List LogLine
unfolding configured_line starting_line
start_log fs cfg =
    let found = discover_targets fs cfg.targets in
    let failed : List LogLine = elim found.1 [
      | none ↦ []
      | some e ↦
          record {
            level = warn;
            message = codes "initial discovery errors (non-fatal)";
            values = (codes "error", e) ∷ [];
          }
          ∷ []
    ] in
    map configured_line cfg.targets
    ++ (starting_line cfg ∷ (validation_log fs cfg ++ (discovery_log found ++ failed)))

-- The settings of the `http.Server`, the timeouts in nanoseconds.
pub record HttpServer : Type 0 where
  pub addr : Bytes
  pub read_timeout : ℕ
  pub write_timeout : ℕ
  pub idle_timeout : ℕ

-- The process with its two loops in front of their first steps.
pub record Serving : Type 0 where
  pub config : Config
  pub log : List LogLine
  pub running : Running
  pub server : HttpServer

-- The process ends with a code, or it serves.
pub data Outcome : Type 0 where
  exit : ℕ → List LogLine → Outcome
  serving : Serving → Outcome

unfoldable pub start : FileSystem → Config → Serving
start fs cfg = record {
  config = cfg;
  log = start_log fs cfg;
  running = launch cfg fs;
  server = record {
    addr = cfg.listen_addr;
    read_timeout = 10 * second;
    write_timeout = 15 * second;
    idle_timeout = 60 * second;
  };
}

-- `LoadConfig` reads its file from the file system that is discovered then.
unfoldable pub main :
    List Bytes
    → Env
    → (Bytes → Result ℕ)
    → FileSystem
    → (Bytes → Result FileConfig)
    → Result Bytes
    → Outcome
main args env http_get fs unmarshal random =
    if is_healthcheck args
    then exit (healthcheck env http_get) []
    else elim (load_config env fs.read_file unmarshal random) [
      | err e ↦ exit 1 (
          record {
            level = error;
            message = codes "configuration error";
            values = (codes "error", e) ∷ [];
          }
          ∷ [])
      | ok cfg ↦ serving (start fs cfg)
    ]
