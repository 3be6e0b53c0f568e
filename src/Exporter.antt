-- ===== src/Exporter.antt =====
-- exporter.go: the state that the goroutines share, `Discover`, `TriggerReload` and `ScanAll`;
-- watchlist.go: `WatchList`.
pub mod Loops
pub mod Signals
pub mod Requests
pub mod Overlap
pub mod Entries
pub mod Startup
pub mod Size
pub mod Places
pub mod Listed
pub mod Shutdown
mod Tests
use directory_exporter.Common.{
  ℕ, ◌+◌, ltb, Bool, false, List, [], map, Option, Bytes, Error, if◌then◌else◌, length, select,
  write_all, is_empty,
}
use directory_exporter.Types.{WatchEntry, DirMetrics, DirLabels}
use directory_exporter.Go.Os.{FileSystem}
use directory_exporter.Config.{Config}
use directory_exporter.Watch.Targets.{discover_targets}
use directory_exporter.Scanner.{ScanResult, scan_dir}
use directory_exporter.Activity.Nodes.{discover_stream_nodes}
use directory_exporter.Activity.Delay.{Instant, unix}
use directory_exporter.Activity.Distributor.{Clock}
use directory_exporter.Activity.ScanAll.{started, scan_all_node_activities}
use directory_exporter.Buffer.ScanAll.{scan_all_node_buffers}
use directory_exporter.Cache.{Cache, Maps, new_cache, set_batch, incr_reload, set_watched_total}

-- `reload_ch` is the number of signals in the channel, whose buffer holds one.
pub record Exporter : Type 0 where
  pub cache : Cache
  pub watch_list : List WatchEntry
  pub reload_ch : ℕ

abbrev pub new_exporter : Exporter
new_exporter = record { cache = new_cache; watch_list = []; reload_ch = 0 }

-- `select { case reloadCh <- struct{}{}: default: }`
abbrev pub send_signal : ℕ → ℕ
send_signal n = if ltb n 1 then n + 1 else n

unfoldable pub trigger_reload : Exporter → Exporter
trigger_reload e = record e { cache = incr_reload e.cache; reload_ch = send_signal e.reload_ch }

-- What the clocks and the file system answer during one cycle, and when the context of the cycle
-- ends: as the loop over the watch list polls it, the scan of a directory, the loops over the nodes,
-- and the count of a buffer directory.
pub record Cycle : Type 0 where
  pub fs : FileSystem
  pub clock : Clock
  pub now : Instant
  pub end_time : Instant
  pub elapsed : Bytes → ℕ
  pub launch_done : ℕ → Bool
  pub scan_done : Bytes → ℕ → Bool
  pub activity_done : ℕ → Bool
  pub buffer_done : ℕ → Bool
  pub count_done : Bytes → Bytes → ℕ → Bool

abbrev pub metrics_of : ScanResult → DirLabels → DirMetrics
metrics_of res labels = record {
  file_count = res.file_count;
  oldest_timestamp_sec = res.oldest_timestamp;
  newest_timestamp_sec = res.newest_timestamp;
  scan_duration = res.scan_duration;
  scan_success = res.scan_success;
  truncated = res.truncated;
  labels = labels;
}

-- A background context never ends.
abbrev pub background : ℕ → Bool
background k = false

-- `WatchList.Get`, a copy of the list.
abbrev pub get_list : Exporter → List WatchEntry
get_list e = e.watch_list

-- `wl.Set(entries)` and `cache.SetWatchedTotal(len(entries))`.
unfoldable pub set_list : List WatchEntry → Exporter → Exporter
set_list entries e = record e { watch_list = entries }

unfoldable pub set_count : ℕ → Exporter → Exporter
set_count n e = record e { cache = set_watched_total n e.cache }

module _ (cfg : Config) where
  -- `Discover` in its two steps: the watch list, and the size that the cache reports.
  unfoldable pub discover : FileSystem → Exporter → Exporter × Option Error
  unfolding set_list set_count
  discover fs e =
      let (entries, error) = discover_targets fs cfg.targets in
      (set_count (length entries) (set_list entries e), error)

  module _ (c : Cycle) where
    unfoldable pub scan_entry : WatchEntry → ScanResult
    scan_entry we =
        scan_dir c.fs we.abs_path (c.scan_done we.abs_path) cfg.max_files_per_dir cfg.max_stat_files
          (c.elapsed we.abs_path)

    -- What the goroutine of a watched directory writes.
    unfoldable pub entry_write : WatchEntry → Bytes × DirMetrics
    entry_write we = (we.abs_path, metrics_of (scan_entry we) we.labels)

    unfoldable pub scan_results : List WatchEntry → List (Bytes × DirMetrics)
    scan_results watched = write_all (map entry_write (started c.launch_done 0 watched)) []

    -- `errCount`
    unfoldable pub error_count : List WatchEntry → ℕ
    error_count watched =
        length (select (λ we. (scan_entry we).error) (started c.launch_done 0 watched))

    -- The cycle for an empty watch list.
    unfoldable pub idle_maps : Maps
    idle_maps =
        let nodes = discover_stream_nodes c.fs cfg.targets in
        record {
          entries = [];
          node_activities =
              scan_all_node_activities c.fs c.clock cfg.min_delay c.now cfg.tracelog_dir
                cfg.trace_lookback_days background nodes;
          node_buffers = scan_all_node_buffers c.fs (λ d p. background) background [] nodes;
          last_scan_time = unix c.end_time;
        }

    unfoldable pub cycle_maps : List WatchEntry → Maps
    cycle_maps watched =
        let nodes = discover_stream_nodes c.fs cfg.targets in
        let results = scan_results watched in
        record {
          entries = results;
          node_activities =
              scan_all_node_activities c.fs c.clock cfg.min_delay c.now cfg.tracelog_dir
                cfg.trace_lookback_days c.activity_done nodes;
          node_buffers = scan_all_node_buffers c.fs c.count_done c.buffer_done results nodes;
          last_scan_time = unix c.end_time;
        }

    unfoldable pub scan_all : Exporter → Exporter
    scan_all e =
        if is_empty (get_list e)
        then record e { cache = set_batch idle_maps 0 e.cache }
        else record e {
          cache = set_batch (cycle_maps (get_list e)) (error_count (get_list e)) e.cache;
        }
