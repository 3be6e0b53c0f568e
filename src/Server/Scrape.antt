-- ===== src/Server/Scrape.antt =====
-- From the scan of a directory to what a scraper reads in the response of /metrics.
use mathlib.Core.List.{Memᴰ}
use mathlib.Core.List.Memᴰ
use directory_exporter.Common.{
  ◌∙◌, sym, Bool, Bool-cases, ℕ, pos, true, false, List, [], ◌∷◌, ◌++◌, map, some, Bytes, codes,
  is_empty, eqb, get, Distinct, ◌≡◌, arith, refl, ap, inl, inr,
}
use directory_exporter.Types.{WatchEntry, DirMetrics}
use directory_exporter.Go.Sort.{sort, sort-Mem, by_key}
use directory_exporter.Config.{Config}
use directory_exporter.Cache.{CacheSnapshot, values, snapshot}
use directory_exporter.Exporter.{Exporter, Cycle, scan_entry, metrics_of, scan_all}
use directory_exporter.Exporter.Entries.{path_of, scan_all_entries, scan_all-ready}
use directory_exporter.Metrics.Render.{
  Format, everything, has_times, dir_key, activity_key, buffer_key,
}
use directory_exporter.Metrics.Text.{decimal}
use directory_exporter.Metrics.Read.{Sample, read_text}
use directory_exporter.Metrics.Samples.{
  each_sample, dir_sample, files_sample, control_samples, activity_samples, samples,
}
use directory_exporter.Metrics.Scrape.{read_text-render_metrics}
use directory_exporter.Metrics.Scrape.Families.{IsPlain}
use directory_exporter.Server.{serve, handle_metrics}
use directory_exporter.Server.Lifecycle.{get_request}

pub get-values {ℓ} :
    {V : Type ℓ} (k : Bytes) (v : V) (m : List (Bytes × V)) → get k m ≡ some v → Memᴰ v (values m)
unfolding get
get-values k v [] h = absurd (cc h)
get-values k v ((j, w) ∷ m) h = elim (Bool-cases (eqb k j)) [
  | inl here ↦ Memᴰ.head (ground arith)
  | inr there ↦ Memᴰ.tail (get-values k v m (ground arith))
]

pub each_sample-Mem {ℓ} :
    {A : Type ℓ} (test : A → Bool) (write : A → Sample) (x : A) (xs : List A)
    → test x ≡ true
    → Memᴰ x xs
    → Memᴰ (write x) (each_sample test write xs)
unfolding each_sample
each_sample-Mem test write x [] t m = elim m [ ]
each_sample-Mem test write x (y ∷ xs) t (Memᴰ.head p) =
    rw (ap test (sym p) ∙ t) (Memᴰ.head (ap write p))
each_sample-Mem test write x (y ∷ xs) t (Memᴰ.tail m) = elim (Bool-cases (test y)) [
  | inl yes_y ↦ rw yes_y (Memᴰ.tail (each_sample-Mem test write x xs t m))
  | inr no_y ↦ rw no_y (each_sample-Mem test write x xs t m)
]

-- The sample of the number of files of a directory.
abbrev pub count_sample : DirMetrics → Sample
count_sample = dir_sample (codes "directory_file_count") (λ dm. decimal (pos dm.file_count))

samples-Mem :
    (fmt : Format) (snap : CacheSnapshot) (dm : DirMetrics)
    → snap.ready ≡ true
    → Memᴰ dm snap.entries
    → Memᴰ (count_sample dm) (samples fmt snap)
unfolding samples
samples-Mem fmt snap dm warm m =
    let sorted = sort (by_key dir_key) snap.entries in
    let times = λ (name : Bytes) (value : DirMetrics → Bytes).
      each_sample has_times (dir_sample name value) sorted in
    rw warm (
      Memᴰ.tail (
        Memᴰ.append_right (control_samples fmt snap) (
          Memᴰ.append_left
            (activity_samples fmt (sort (by_key activity_key) snap.node_activities)
              ++ each_sample everything files_sample (sort (by_key buffer_key) snap.node_buffers))
            (Memᴰ.append_left
              (times (codes "directory_oldest_file_timestamp_seconds")
                  (λ d. fmt.whole d.oldest_timestamp_sec)
                ++ (times (codes "directory_newest_file_timestamp_seconds")
                      (λ d. fmt.whole d.newest_timestamp_sec)
                    ++ each_sample everything
                        (dir_sample (codes "directory_scrape_duration_seconds")
                          (λ d. fmt.duration d.scan_duration))
                        sorted))
              (each_sample-Mem everything count_sample dm sorted refl
                (sort-Mem (by_key dir_key) dm snap.entries m))))))

filled_list : {w : WatchEntry} {ws : List WatchEntry} → Memᴰ w ws → is_empty ws ≡ false
filled_list (Memᴰ.head p) = refl
filled_list (Memᴰ.tail m) = refl

-- From the file system to the scraper. After a cycle whose context does not end before the last
-- directory is started, on a watch list in which no path stands twice, a GET request for /metrics gets
-- a text that can be read, and what is read holds, for each entry of the watch list, a sample
-- directory_file_count with the labels of the entry and the number that the scan of its directory
-- counted. The verb %g writes no line end.
pub serve-scrape :
    (cfg : Config) (fmt : Format) (c : Cycle) (e : Exporter) (w : WatchEntry)
    (authorization : Bytes)
    → IsPlain fmt
    → ((k : ℕ) → c.launch_done k ≡ false)
    → Distinct (map path_of e.watch_list)
    → Memᴰ w e.watch_list
    → (xs : List Sample) × (read_text
          (serve cfg fmt (get_request (codes "/metrics") authorization) (scan_all cfg c e)).0.body
        ≡ some xs)
      × Memᴰ (count_sample (metrics_of (scan_entry cfg c w) w.labels)) xs
unfolding serve handle_metrics snapshot
serve-scrape cfg fmt c e w authorization plain never distinct m =
    let k = (scan_all cfg c e).cache in
    let snap = snapshot k k k k k in
    let entry = scan_all_entries cfg c e w never (filled_list m) distinct m in
    (
      samples fmt snap,
      read_text-render_metrics fmt plain snap,
      samples-Mem fmt snap _ (scan_all-ready cfg c e).0
          (get-values (path_of w) _ k.maps.entries entry),
    )
