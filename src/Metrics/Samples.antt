-- ===== src/Metrics/Samples.antt =====
-- The samples that a response of /metrics stands for, told without its text.
use directory_exporter.Common.{
  pos, Bool, true, false, List, [], ◌∷◌, ◌++◌, Bytes, codes, if◌then◌else◌,
}
use directory_exporter.Types.{DirMetrics, NodeActivity, NodeBuffer}
use directory_exporter.Go.Sort.{sort, by_key}
use directory_exporter.Activity.Nodes.{collector, distributor}
use directory_exporter.Cache.{CacheSnapshot}
use directory_exporter.Metrics.Text.{decimal}
use directory_exporter.Metrics.Render.{
  Format, dir_key, activity_key, buffer_key, has_times, everything, is_active, is_timed, has_file,
}
use directory_exporter.Metrics.Read.{Sample}

-- A sample for each item that passes a test.
unfoldable pub each_sample {ℓ} : {A : Type ℓ} → (A → Bool) → (A → Sample) → List A → List Sample
each_sample test write [] = []
each_sample test write (x ∷ xs) =
    if test x then write x ∷ each_sample test write xs else each_sample test write xs

abbrev pub plain_sample : Bytes → Bytes → Sample
plain_sample name value = record { name = name; labels = []; value = value }

abbrev pub dir_sample : Bytes → (DirMetrics → Bytes) → DirMetrics → Sample
dir_sample name value dm = record {
  name = name;
  labels =
      (codes "base", dm.labels.base)
      ∷ (codes "stream", dm.labels.stream)
      ∷ (codes "type", dm.labels.kind)
      ∷ [];
  value = value dm;
}

abbrev pub node_sample : Bytes → (NodeActivity → Bytes) → NodeActivity → Sample
node_sample name value act = record {
  name = name;
  labels = (codes "base", act.base) ∷ (codes "stream", act.stream) ∷ (codes "node", act.node) ∷ [];
  value = value act;
}

abbrev pub file_sample : NodeActivity → Sample
file_sample act = record {
  name = codes "directory_node_last_file_info";
  labels =
      (codes "base", act.base)
      ∷ (codes "stream", act.stream)
      ∷ (codes "node", act.node)
      ∷ (codes "type", act.node_type)
      ∷ (codes "filename", act.last_file)
      ∷ [];
  value = codes "1";
}

abbrev pub files_sample : NodeBuffer → Sample
files_sample nb = record {
  name = codes "directory_buffer_files";
  labels =
      (codes "base", nb.base)
      ∷ (codes "stream", nb.stream)
      ∷ (codes "node", nb.node)
      ∷ (codes "type", nb.node_type)
      ∷ [];
  value = decimal (pos nb.file_count);
}

module _ (fmt : Format) where
  abbrev pub ready_sample : Bool → Sample
  ready_sample ready =
      plain_sample (codes "directory_cache_ready") (fmt.whole (if ready then pos 1 else pos 0))

  abbrev pub control_samples : CacheSnapshot → List Sample
  control_samples snap =
      plain_sample (codes "directory_last_scan_timestamp_seconds") (fmt.whole snap.last_scan_time)
      ∷ plain_sample (codes "directory_watched_total") (decimal snap.watched_total)
      ∷ plain_sample (codes "directory_scan_errors_total") (decimal (pos snap.scan_errors))
      ∷ plain_sample (codes "directory_reload_total") (decimal (pos snap.reload_total))
      ∷ []

  -- Four metrics for each directory; no timestamps where it has no file or could not be read.
  abbrev pub dir_samples : List DirMetrics → List Sample
  dir_samples sorted =
      each_sample everything
        (dir_sample (codes "directory_file_count") (λ dm. decimal (pos dm.file_count))) sorted
      ++ (each_sample has_times
            (dir_sample (codes "directory_oldest_file_timestamp_seconds")
              (λ dm. fmt.whole dm.oldest_timestamp_sec))
            sorted
          ++ (each_sample has_times
                (dir_sample (codes "directory_newest_file_timestamp_seconds")
                  (λ dm. fmt.whole dm.newest_timestamp_sec))
                sorted
              ++ each_sample everything
                  (dir_sample (codes "directory_scrape_duration_seconds")
                    (λ dm. fmt.duration dm.scan_duration))
                  sorted))

  -- Two metrics for each node of a kind that had success; no timestamp where it is not positive.
  abbrev pub kind_samples : Bytes → Bytes → Bytes → List NodeActivity → List Sample
  kind_samples kind times delays sorted =
      each_sample (is_timed kind) (node_sample times (λ act. fmt.whole act.last_activity_timestamp))
        sorted
      ++ each_sample (is_active kind) (node_sample delays (λ act. fmt.whole act.delay_sec)) sorted

  abbrev pub activity_samples : List NodeActivity → List Sample
  activity_samples sorted =
      kind_samples collector (codes "directory_collector_last_activity_timestamp_seconds")
        (codes "directory_collector_delay_seconds") sorted
      ++ (kind_samples distributor (codes "directory_distributor_last_activity_timestamp_seconds")
            (codes "directory_distributor_delay_seconds") sorted
          ++ each_sample has_file file_sample sorted)

  -- A cache that is not ready has the one sample that says so.
  unfoldable pub samples : CacheSnapshot → List Sample
  samples snap =
      if snap.ready
      then ready_sample true
        ∷ (control_samples snap
            ++ (dir_samples (sort (by_key dir_key) snap.entries)
                ++ (activity_samples (sort (by_key activity_key) snap.node_activities)
                    ++ each_sample everything files_sample
                        (sort (by_key buffer_key) snap.node_buffers))))
      else ready_sample false ∷ []
