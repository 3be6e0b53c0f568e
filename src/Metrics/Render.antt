-- ===== src/Metrics/Render.antt =====
-- metrics.go: `RenderMetrics`. The text that is written for a `%g` is asked of a record.
use directory_exporter.Common.{
  ℕ, ℤ, pos, ltb, ltb_ℤ, Bool, true, false, not, ◌&&◌, ◌||◌, ◌==◌, List, [], ◌∷◌, ◌++◌, Bytes,
  codes, eqb, if◌then◌else◌, is_empty,
}
use directory_exporter.Types.{DirMetrics, NodeActivity, NodeBuffer}
use directory_exporter.Go.FilePath.{slash}
use directory_exporter.Go.Sort.{sort, by_key}
use directory_exporter.Activity.Nodes.{collector, distributor}
use directory_exporter.Activity.ScanAll.{typed_key}
use directory_exporter.Cache.{CacheSnapshot}
use directory_exporter.Metrics.Text.{decimal, help, typ, lv, line_end}

-- `%g` of a whole number of seconds, and of a duration in nanoseconds as seconds.
pub record Format : Type 0 where
  pub whole : ℤ → Bytes
  pub duration : ℕ → Bytes

-- Whether an item has a property, and what is written for each item that has a property.
unfoldable pub any {ℓ} : {A : Type ℓ} → (A → Bool) → List A → Bool
any test [] = false
any test (x ∷ xs) = test x || any test xs

unfoldable pub each {ℓ} : {A : Type ℓ} → (A → Bool) → (A → Bytes) → List A → Bytes
each test write [] = []
each test write (x ∷ xs) = (if test x then write x else []) ++ each test write xs

-- A family: its HELP and TYPE lines, and its samples.
unfoldable pub family : Bytes → Bytes → Bytes → Bytes → Bytes
family name kind text samples = help name text ++ (typ name kind ++ samples)

-- `name value` and `name{labels} value`.
unfoldable pub plain : Bytes → Bytes → Bytes
plain name value = name ++ (b' ' ∷ (value ++ line_end ∷ []))

unfoldable pub labelled : Bytes → Bytes → Bytes → Bytes
labelled name labels value = name ++ (b'{' ∷ (labels ++ (codes "} " ++ (value ++ line_end ∷ []))))

unfoldable pub dir_labels : DirMetrics → Bytes
dir_labels dm =
    codes "base="
    ++ (lv dm.labels.base
        ++ (codes ",stream=" ++ (lv dm.labels.stream ++ (codes ",type=" ++ lv dm.labels.kind))))

unfoldable pub node_labels : Bytes → Bytes → Bytes → Bytes
node_labels base stream node =
    codes "base=" ++ (lv base ++ (codes ",stream=" ++ (lv stream ++ (codes ",node=" ++ lv node))))

abbrev pub gauge : Bytes
gauge = codes "gauge"

abbrev pub counter : Bytes
counter = codes "counter"

-- The keys of the three sorts.
abbrev pub dir_key : DirMetrics → Bytes
dir_key dm = dm.labels.base ++ (slash ∷ (dm.labels.stream ++ (slash ∷ dm.labels.kind)))

abbrev pub activity_key : NodeActivity → Bytes
activity_key act = typed_key act.base act.stream act.node act.node_type

abbrev pub buffer_key : NodeBuffer → Bytes
buffer_key nb = typed_key nb.base nb.stream nb.node nb.node_type

-- The timestamps of a directory are left out where it has no file or could not be read.
abbrev pub has_times : DirMetrics → Bool
has_times dm = dm.scan_success == 1 && ltb 0 dm.file_count

abbrev pub everything {ℓ} : {A : Type ℓ} → A → Bool
everything x = true

abbrev pub is_active : Bytes → NodeActivity → Bool
is_active kind act = eqb act.node_type kind && act.success

abbrev pub is_timed : Bytes → NodeActivity → Bool
is_timed kind act = is_active kind act && ltb_ℤ (pos 0) act.last_activity_timestamp

abbrev pub has_file : NodeActivity → Bool
has_file act = act.success && not (is_empty act.last_file) && not (eqb act.last_file (codes "-"))

module _ (fmt : Format) where
  unfoldable pub ready_family : Bool → Bytes
  ready_family ready =
      family (codes "directory_cache_ready") gauge
        (codes "1 = first scan complete, 0 = cache is still warming up (cold start).")
        (plain (codes "directory_cache_ready") (fmt.whole (if ready then pos 1 else pos 0)))

  unfoldable pub control_families : CacheSnapshot → Bytes
  control_families snap =
      family (codes "directory_last_scan_timestamp_seconds") gauge
        (codes "Unix timestamp of when the metrics cache was last refreshed.")
        (plain (codes "directory_last_scan_timestamp_seconds") (fmt.whole snap.last_scan_time))
      ++ (family (codes "directory_watched_total") gauge
            (codes "Total number of directories currently on the Watch List.")
            (plain (codes "directory_watched_total") (decimal snap.watched_total))
          ++ (family (codes "directory_scan_errors_total") counter
                (codes
                  "Cumulative count of scan errors (permission denied, vanished directories, etc.).")
                (plain (codes "directory_scan_errors_total") (decimal (pos snap.scan_errors)))
              ++ family (codes "directory_reload_total") counter
                  (codes "Cumulative count of /-/reload triggers received by the exporter.")
                  (plain (codes "directory_reload_total") (decimal (pos snap.reload_total)))))

  -- A family with a sample for each directory that passes a test.
  unfoldable pub dir_family :
      Bytes → Bytes → (DirMetrics → Bool) → (DirMetrics → Bytes) → List DirMetrics → Bytes
  dir_family name text test value sorted =
      family name gauge text (each test (λ dm. labelled name (dir_labels dm) (value dm)) sorted)

  unfoldable pub dir_families : List DirMetrics → Bytes
  dir_families sorted =
      dir_family (codes "directory_file_count")
        (codes "Total number of regular files directly in the monitored directory (non-recursive).")
        everything (λ dm. decimal (pos dm.file_count)) sorted
      ++ (dir_family (codes "directory_oldest_file_timestamp_seconds")
            (codes "Modification time (Unix epoch) of the oldest file. Detects stuck queues.")
            has_times (λ dm. fmt.whole dm.oldest_timestamp_sec) sorted
          ++ (dir_family (codes "directory_newest_file_timestamp_seconds")
                (codes "Modification time (Unix epoch) of the newest file. Detects halted ingest.")
                has_times (λ dm. fmt.whole dm.newest_timestamp_sec) sorted
              ++ dir_family (codes "directory_scrape_duration_seconds")
                  (codes "Wall-clock duration of the last background scan for this directory.")
                  everything (λ dm. fmt.duration dm.scan_duration) sorted))

  unfoldable pub node_family :
      Bytes → Bytes → (NodeActivity → Bool) → (NodeActivity → Bytes) → List NodeActivity → Bytes
  node_family name text test value sorted = family name gauge text (
      each test (λ act. labelled name (node_labels act.base act.stream act.node) (value act))
        sorted)

  -- The two families of a kind of node, if a node of the kind had success.
  unfoldable pub collector_families : List NodeActivity → Bytes
  collector_families sorted =
      if any (is_active collector) sorted
      then node_family (codes "directory_collector_last_activity_timestamp_seconds")
          (codes "Unix timestamp (seconds) of the last file collected by the collector node.")
          (is_timed collector) (λ act. fmt.whole act.last_activity_timestamp) sorted
        ++ node_family (codes "directory_collector_delay_seconds")
            (codes
              "Delay in seconds since the last collected file (now - last_activity_timestamp). 0 if delay <= min_delay.")
            (is_active collector) (λ act. fmt.whole act.delay_sec) sorted
      else []

  unfoldable pub distributor_families : List NodeActivity → Bytes
  distributor_families sorted =
      if any (is_active distributor) sorted
      then node_family (codes "directory_distributor_last_activity_timestamp_seconds")
          (codes "Unix timestamp (seconds) of the last file distributed by the distributor node.")
          (is_timed distributor) (λ act. fmt.whole act.last_activity_timestamp) sorted
        ++ node_family (codes "directory_distributor_delay_seconds")
            (codes
              "Delay in seconds since the last distributed file (now - last_activity_timestamp). 0 if delay <= min_delay.")
            (is_active distributor) (λ act. fmt.whole act.delay_sec) sorted
      else []

  unfoldable pub file_labels : NodeActivity → Bytes
  file_labels act =
      node_labels act.base act.stream act.node
      ++ (codes ",type=" ++ (lv act.node_type ++ (codes ",filename=" ++ lv act.last_file)))

  unfoldable pub file_family : List NodeActivity → Bytes
  file_family sorted =
      if any has_file sorted
      then family (codes "directory_node_last_file_info") gauge
          (codes "Information metric exposing the last processed (collected/distributed) filename.")
          (each has_file
            (λ act. labelled (codes "directory_node_last_file_info") (file_labels act) (codes "1"))
            sorted)
      else []

  unfoldable pub buffer_sample : NodeBuffer → Bytes
  buffer_sample nb =
      labelled (codes "directory_buffer_files")
        (node_labels nb.base nb.stream nb.node ++ (codes ",type=" ++ lv nb.node_type))
        (decimal (pos nb.file_count))

  unfoldable pub buffer_family : List NodeBuffer → Bytes
  buffer_family sorted =
      family (codes "directory_buffer_files") gauge
        (codes
          "Number of files waiting in the collector node's SourceDirectory buffer directory (non-recursive, mirrors monitoring.sh BUFFER_INDEX). 0 when empty, missing, or unreadable.")
        (each everything buffer_sample sorted)

  -- The three parts that are written only where there is something to write.
  unfoldable pub entries_text : List DirMetrics → Bytes
  entries_text xs = if is_empty xs then [] else dir_families (sort (by_key dir_key) xs)

  unfoldable pub activities_text : List NodeActivity → Bytes
  activities_text xs =
      let sorted = sort (by_key activity_key) xs in
      if is_empty xs
      then []
      else collector_families sorted ++ (distributor_families sorted ++ file_family sorted)

  unfoldable pub buffers_text : List NodeBuffer → Bytes
  buffers_text xs = if is_empty xs then [] else buffer_family (sort (by_key buffer_key) xs)

  unfoldable pub render_metrics : CacheSnapshot → Bytes
  render_metrics snap =
      if snap.ready
      then ready_family true
        ++ (control_families snap
            ++ (entries_text snap.entries
                ++ (activities_text snap.node_activities ++ buffers_text snap.node_buffers)))
      else ready_family false
