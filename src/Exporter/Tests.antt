-- ===== src/Exporter/Tests.antt =====
-- A watch list of two directories, and a run with a request.
use mathlib.Core.List.{Memᴰ}
use directory_exporter.Common.{
  length, pos, true, false, List, [], ◌∷◌, ◌++◌, map, Bytes, codes, none, some, ◌≡◌, ◌⊎◌, arith,
  refl, sym, subst, Distinct, member, Reordered, swap, get, write_all, if◌then◌else◌, eqb,
}
use directory_exporter.Types.{WatchEntry, DirMetrics}
use directory_exporter.Go.Os.{FileSystem, ok, err, regular, directory}
use directory_exporter.Config.{Config, defaults}
use directory_exporter.Watch.Targets.{discover_targets}
use directory_exporter.Cache.{to_int32, new_cache}
use directory_exporter.Activity.ScanAll.{started}
use directory_exporter.Exporter.{
  new_exporter, Exporter, Cycle, background, entry_write, scan_entry, metrics_of, scan_all,
  discover, trigger_reload, set_list, set_count,
}
use directory_exporter.Exporter.Loops.{
  returned, wait_count, waiting, Running, Event, first_scan, take_signal, reload_list, reload_count,
  reload_scan, tick_list, tick_count, request, stop, scan_return, happen, run, launch, found,
}
use directory_exporter.Exporter.Requests.{IsOnWay, queued, stage_after, CanAnswer, request_answered}
use directory_exporter.Exporter.Shutdown.{stop_early}
use directory_exporter.Exporter.Size.{stays_apart, run-size}
use directory_exporter.Exporter.Overlap.{discover_overlap}
use directory_exporter.Exporter.Entries.{path_of, scan_all_entries, scan_all-any_order}

abbrev fs : FileSystem
fs = record {
  stat = λ p. err (codes "no such file");
  open_dir = λ p.
      if eqb p (codes "/s/a")
      then ok (
          record {
            entries = record { name = codes "f"; entry_type = regular; info = some (pos 5) } ∷ [];
            failed = false;
          }
          ∷ [])
      else err (codes "permission denied");
  read_dir = λ p. err (codes "no such file");
  read_file = λ p. err (codes "no such file");
  eval_symlinks = λ p. err (codes "no such file");
}

abbrev cycle : Cycle
cycle = record {
  fs = fs;
  clock = record { parse_in_location = λ l s. none; day_stamp = λ d. []; glob = λ p. ok [] };
  now = pos 1700000000000;
  end_time = pos 1701000000000;
  elapsed = λ p. 9;
  launch_done = background;
  scan_done = λ p. background;
  activity_done = background;
  buffer_done = background;
  count_done = λ d p. background;
}

abbrev entry : Bytes → WatchEntry
entry name = record {
  abs_path = codes "/s/" ++ name;
  labels = record { base = codes "/s"; stream = name; kind = [] };
}

abbrev watched : List WatchEntry
watched = entry (codes "a") ∷ entry (codes "b") ∷ []

abbrev exporter : Exporter
exporter = record { cache = new_cache; watch_list = watched; reload_ch = 0 }

watched_paths : Distinct (map path_of watched)
unfolding member
watched_paths = (refl, (refl, tt))

scan_all_entries_example :
    get (codes "/s/a") (scan_all defaults cycle exporter).cache.maps.entries
    ≡ some (metrics_of (scan_entry defaults cycle (entry (codes "a"))) (entry (codes "a")).labels)
scan_all_entries_example =
    scan_all_entries defaults cycle exporter (entry (codes "a")) (λ k. refl) refl watched_paths
      (Memᴰ.head refl)

started_both : started background 0 watched ≡ watched
unfolding started
started_both = refl

scan_all-any_order_example :
    get (codes "/s/a") (
      write_all
        (entry_write defaults cycle (entry (codes "b"))
          ∷ entry_write defaults cycle (entry (codes "a"))
          ∷ [])
        [])
    ≡ get (codes "/s/a") (scan_all defaults cycle exporter).cache.maps.entries
scan_all-any_order_example =
    scan_all-any_order defaults cycle exporter (codes "/s/a") refl watched_paths (
      subst
        (λ xs. Reordered (Bytes × DirMetrics) (map (entry_write defaults cycle) xs) (
          entry_write defaults cycle (entry (codes "b"))
          ∷ entry_write defaults cycle (entry (codes "a"))
          ∷ []))
        (sym started_both) (swap _ _))

abbrev later_events : List Event
later_events =
    first_scan cycle
    ∷ take_signal
    ∷ reload_list fs
    ∷ reload_count
    ∷ reload_scan cycle
    ∷ request
    ∷ stop
    ∷ scan_return
    ∷ []

reaches : (t : Running) × (run defaults (request ∷ later_events) (launch defaults fs) ≡ some t)
unfolding run happen launch scan_all trigger_reload set_list set_count discover discover_targets
    defaults
reaches = (_, refl)

request_answered_example :
    IsOnWay (stage_after later_events queued) reaches.0
    × ((reaches.0.scan_loop ≡ returned)
        ⊎ CanAnswer defaults (stage_after later_events queued) reaches.0)
unfolding launch discover set_count set_list
request_answered_example =
    request_answered defaults fs cycle later_events (launch defaults fs) reaches.0 (omega arith)
      reaches.1

run-size_example :
    reaches.0.exporter.cache.watched_total ≡ to_int32 (length reaches.0.exporter.watch_list)
unfolding stays_apart happen launch scan_all trigger_reload discover discover_targets defaults
    reaches
run-size_example = run-size defaults fs (request ∷ later_events) reaches.0 reaches.1 refl refl refl

stop_early_example :
    (s : Running) × (t : Running) × (run defaults (stop ∷ []) (launch defaults fs) ≡ some s)
    × (wait_count s ≡ 0)
    × (run defaults (first_scan cycle ∷ []) s ≡ some t)
    × (t.exporter ≡ scan_all defaults cycle (launch defaults fs).exporter)
stop_early_example = stop_early defaults fs cycle

-- A tree with one directory, which is gone later.
abbrev one_target : Config
one_target = record defaults {
  targets =
      record {
        base = codes "/s";
        label = [];
        dirs = [];
        max_depth = pos 1;
        pattern = [];
        include = [];
      }
      ∷ [];
}

abbrev full : FileSystem
full = record fs {
  read_dir = λ p.
      if eqb p (codes "/s")
      then ok (record { name = codes "a"; entry_type = directory; info = none } ∷ [])
      else ok [];
  eval_symlinks = λ p. ok p;
  stat = λ p. ok (record { is_dir = true; mod_time = pos 1 });
}

abbrev signal_left : Exporter
signal_left = record new_exporter { reload_ch = 1 }

discover_overlap_example :
    (t : Running) × (run one_target
        (take_signal ∷ tick_list full ∷ reload_list fs ∷ reload_count ∷ tick_count ∷ [])
        (record {
          exporter = signal_left;
          scan_loop = waiting;
          discovery_loop = waiting;
          stopped = false;
        })
      ≡ some t)
    × (t.exporter.watch_list ≡ found one_target fs)
    × (t.exporter.cache.watched_total ≡ to_int32 (length (found one_target full)))
discover_overlap_example = discover_overlap one_target full fs signal_left refl
