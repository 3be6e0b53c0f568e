-- ===== src/Main/Tests.antt =====
-- A process that is configured by the environment alone, and one with a file that sets the address.
use directory_exporter.Go.Strings.{join}
use directory_exporter.Metrics.Text.{decimal}
use directory_exporter.Go.Strconv.{quote_text}
use directory_exporter.Watch.Pattern.{match_pattern_prefix, match_pattern}
use directory_exporter.Go.FilePath.{clean, join_path}
use directory_exporter.Watch.Walk.{
  discover_directories, walk, visit, with_entries, walk_children, walk_child, enter,
}
use directory_exporter.Watch.Targets.{discover_targets, discover_target}
use directory_exporter.Exporter.Startup.{validation_log, discovery_log, target_detail, target_line}
use directory_exporter.Common.{
  some, ℕ, ◌*◌, pos, false, true, List, [], ◌∷◌, ◌++◌, Bytes, codes, eqb, none, if◌then◌else◌, ◌≡◌,
  ◌↔◌, ◌⊎◌, refl, is_empty, map,
}
use directory_exporter.Go.Os.{Result, ok, err, FileSystem, directory}
use directory_exporter.Config.{
  load_config, file_layer, load_yaml_config, base_path_targets, apply_env_overrides,
  apply_file_config, file_tracelog_dir, parsed, with_secret, default_max_depth, defaults, Config,
  FileConfig, Env, second,
}
use directory_exporter.Main.{health_url, healthcheck, start, serving, exit, main, start_log}
use directory_exporter.Go.Slog.{error}
use directory_exporter.Types.{Target}
use directory_exporter.Main.Health.{listen_variable, port_of, authority, health_url-port}
use directory_exporter.Main.Process.{Process, ProcessEvent, loop_event, server_listens}
use directory_exporter.Exporter.{Cycle, background}
use directory_exporter.Exporter.Loops.{discovery_start, first_scan, tick_list, tick_count}

abbrev env : Env
env name =
    if eqb name (codes "BASE_PATH")
    then codes "/s"
    else if eqb name (codes "RELOAD_SECRET")
    then codes "key"
    else if eqb name (codes "CONFIG_FILE")
    then codes "/targets.yml"
    else []

-- The file sets nothing but the address.
abbrev file : Bytes → FileConfig
file addr = record {
  targets = [];
  tracelog = [];
  tracelog_dir = [];
  min_delay = [];
  trace_lookback_days = none;
  listen_addr = addr;
  reload_secret = [];
  scan_interval = [];
  scan_workers = pos 0;
  scan_timeout = [];
  discovery_interval = [];
  max_files_per_dir = none;
  max_stat_files = none;
}

-- `/s/a` is a directory with no subdirectories.
abbrev fs : FileSystem
fs = record {
  stat = λ p. ok (record { is_dir = true; mod_time = pos 5 });
  open_dir = λ p. ok [];
  read_dir = λ p.
      if eqb p (codes "/s")
      then ok (record { name = codes "a"; entry_type = directory; info = none } ∷ [])
      else ok [];
  read_file = λ p. ok [];
  eval_symlinks = λ p. ok p;
}

abbrev config : Bytes → Config
config addr = record {
  targets =
      record {
        base = codes "/s";
        label = [];
        dirs = [];
        max_depth = pos 1;
        pattern = [];
        include = [];
      }
      ∷ [];
  tracelog_dir = [];
  min_delay = pos (600 * second);
  trace_lookback_days = pos 7;
  scan_interval = pos (120 * second);
  scan_workers = pos 2;
  reload_secret = codes "key";
  discovery_interval = pos (21600 * second);
  listen_addr = addr;
  scan_timeout = pos (90 * second);
  max_files_per_dir = pos 0;
  max_stat_files = pos 5000;
}

abbrev program : List Bytes
program = codes "directory-exporter" ∷ []

abbrev answers : Bytes → Result ℕ
answers url = ok 200

serves :
    main program env answers fs (λ t. ok (file (codes ":9200"))) (ok [])
    ≡ serving (start fs (config (codes ":9200")))
unfolding main load_config file_layer load_yaml_config base_path_targets apply_env_overrides
    apply_file_config file_tracelog_dir parsed with_secret default_max_depth defaults
serves = refl

-- The file moves the server to port 9300, and the health check asks at port 9200.
elsewhere :
    (main program env answers fs (λ t. ok (file (codes ":9300"))) (ok [])
      ≡ serving (start fs (config (codes ":9300"))))
    × (health_url env ≡ codes "http://localhost:9200/-/healthy")
unfolding main load_config file_layer load_yaml_config base_path_targets apply_env_overrides
    apply_file_config file_tracelog_dir parsed with_secret default_max_depth defaults health_url
elsewhere = (refl, refl)

checks :
    (main (codes "p" ∷ codes "-healthcheck" ∷ []) env answers fs (λ t. err []) (err []) ≡ exit 0 [])
    × (main (codes "p" ∷ codes "-healthcheck" ∷ []) env (λ url. ok 503) fs (λ t. err []) (err [])
        ≡ exit 1 [])
unfolding main healthcheck
checks = (refl, refl)

start_lines :
    map (λ l. l.message) (start_log fs (config (codes ":9200")))
    ≡ codes "target configured"
      ∷ codes "directory-exporter starting"
      ∷ codes "target validated"
      ∷ codes "watch list updated"
      ∷ []
unfolding start_log validation_log target_line discovery_log discover_targets discover_target
    discover_directories walk visit with_entries clean walk_children walk_child match_pattern_prefix
    enter join_path match_pattern
start_lines = refl

target_detail_sample :
    target_detail (record {
      base = codes "/s";
      label = [];
      dirs = [];
      max_depth = pos 3;
      pattern = codes "*/x";
      include = codes "a" ∷ codes "b" ∷ [];
    })
    ≡ codes "base "
      ++ (34
          ∷ (codes "/s"
              ++ (34
                  ∷ (codes " OK, auto-discover pattern "
                      ++ (34 ∷ (codes "*/x" ++ (34 ∷ codes " up to depth 3 (include: a, b)")))))))
unfolding target_detail quote_text decimal join
target_detail_sample = refl

health_url-port_example :
    (port_of (authority (health_url env)) ≡ port_of (codes ":9300"))
    ↔ ((is_empty (env listen_variable) ≡ false) ⊎ (port_of (codes ":9300") ≡ some (codes "9200")))
unfolding start
health_url-port_example =
    health_url-port program env answers fs (λ t. ok (file (codes ":9300"))) (ok [])
      (start fs (config (codes ":9300"))) tt elsewhere.0

-- Nothing can be stat-ed.
abbrev gone : FileSystem
gone = record fs { stat = λ p. err (codes "no such file") }

abbrev target : Target
target = record {
  base = codes "/s";
  label = [];
  dirs = [];
  max_depth = pos 1;
  pattern = [];
  include = [];
}

gone_line : (target_line gone target).level ≡ error
unfolding target_line
gone_line = refl

-- A cycle in which nothing is found.
abbrev cycle : Cycle
cycle = record {
  fs = gone;
  clock = record { parse_in_location = λ l s. none; day_stamp = λ d. []; glob = λ p. ok [] };
  now = pos 1700000000000;
  end_time = pos 1701000000000;
  elapsed = λ p. 9;
  launch_done = background;
  scan_done = λ p. background;
  activity_done = background;
  buffer_done = background;
  count_done = λ d p. background;
}

abbrev serving_events : List ProcessEvent
serving_events =
    loop_event discovery_start
    ∷ loop_event (first_scan cycle)
    ∷ server_listens
    ∷ loop_event (tick_list gone)
    ∷ loop_event tick_count
    ∷ []
