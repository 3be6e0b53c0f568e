-- ===== src/Server/Fresh.antt =====
-- What a scraper reads of directories stems from the watch list of the last cycle.
use mathlib.Core.List.{Memᴰ}
use directory_exporter.Common.{
  All-weaken, All-self, write_all-All, Bool, false, List, [], ◌∷◌, map, some, Bytes, codes,
  is_empty, eqb, All, All-append, ◌≡◌, eqb_iff, arith, refl, ap, Bool-cases, inl, inr,
}
use directory_exporter.Types.{WatchEntry, DirMetrics, NodeActivity}
use directory_exporter.Activity.Schedules.{started-All}
use directory_exporter.Go.Sort.{sort-All, sort, by_key}
use directory_exporter.Config.{Config}
use directory_exporter.Activity.Nodes.{collector, distributor}
use directory_exporter.Cache.{CacheSnapshot, values, snapshot}
use directory_exporter.Exporter.{
  Exporter, Cycle, scan_entry, metrics_of, entry_write, scan_results, idle_maps, cycle_maps,
  scan_all,
}
use directory_exporter.Exporter.Entries.{scan_all-maps}
use directory_exporter.Metrics.Render.{
  Format, everything, has_times, is_active, is_timed, has_file, dir_key, activity_key, buffer_key,
}
use directory_exporter.Metrics.Read.{Sample, read_text}
use directory_exporter.Metrics.Samples.{
  each_sample, file_sample, files_sample, control_samples, dir_samples, kind_samples,
  activity_samples, samples,
}
use directory_exporter.Metrics.Scrape.{read_text-render_metrics}
use directory_exporter.Metrics.Scrape.Families.{IsPlain}
use directory_exporter.Server.{serve, handle_metrics}
use directory_exporter.Server.Lifecycle.{get_request}
use directory_exporter.Server.Scrape.{count_sample}

abbrev count_name : Bytes
count_name = codes "directory_file_count"

module _ {ℓ} (P : Sample → Type ℓ) where
  -- A sample that counts files has the property.
  abbrev Counts : Sample → Type ℓ
  Counts x = x.name ≡ count_name → P x

  other-Counts : (x : Sample) → eqb x.name count_name ≡ false → Counts x
  other-Counts x other p = absurd (ground (arith, (eqb_iff x.name count_name).1 p))

  each_sample-Counts {κ} :
      {A : Type κ} (test : A → Bool) (write : A → Sample) (xs : List A)
      → ((y : A) → eqb (write y).name count_name ≡ false)
      → All Counts (each_sample test write xs)
  unfolding each_sample
  each_sample-Counts test write [] h = tt
  each_sample-Counts test write (x ∷ xs) h = elim (Bool-cases (test x)) [
    | inl yes_x ↦ rw yes_x (other-Counts (write x) (h x), each_sample-Counts test write xs h)
    | inr no_x ↦ rw no_x (each_sample-Counts test write xs h)
  ]

  count_sample-Counts :
      (dms : List DirMetrics)
      → All (λ dm. P (count_sample dm)) dms
      → All Counts (each_sample everything count_sample dms)
  unfolding each_sample
  count_sample-Counts [] h = tt
  count_sample-Counts (dm ∷ dms) (p, h) = (λ q. p, count_sample-Counts dms h)

  module _ (fmt : Format) where
    dir_samples-Counts :
        (dms : List DirMetrics)
        → All (λ dm. P (count_sample dm)) dms
        → All Counts (dir_samples fmt dms)
    dir_samples-Counts dms h = All-append Counts _ _ (count_sample-Counts dms h) (
        All-append Counts _ _ (each_sample-Counts has_times _ dms (λ y. refl)) (
          All-append Counts _ _ (each_sample-Counts has_times _ dms (λ y. refl))
            (each_sample-Counts everything _ dms (λ y. refl))))

    kind_samples-Counts :
        (kind times delays : Bytes)
        → eqb times count_name ≡ false
        → eqb delays count_name ≡ false
        → (acts : List NodeActivity) → All Counts (kind_samples fmt kind times delays acts)
    kind_samples-Counts kind times delays p q acts =
        All-append Counts _ _ (each_sample-Counts (is_timed kind) _ acts (λ y. p))
          (each_sample-Counts (is_active kind) _ acts (λ y. q))

    samples-Counts :
        (snap : CacheSnapshot)
        → All (λ dm. P (count_sample dm)) snap.entries
        → All Counts (samples fmt snap)
    unfolding samples
    samples-Counts snap h = elim (Bool-cases snap.ready) [
      | inr cold ↦ rw cold (other-Counts _ refl, tt)
      | inl warm ↦
          let acts = sort (by_key activity_key) snap.node_activities in
          let bufs = sort (by_key buffer_key) snap.node_buffers in
          rw warm (
            other-Counts _ refl,
            All-append Counts (control_samples fmt snap) _
                (
                  other-Counts _ refl,
                  (other-Counts _ refl, (other-Counts _ refl, (other-Counts _ refl, tt))),
                )
                (All-append Counts (dir_samples fmt (sort (by_key dir_key) snap.entries)) _
                  (dir_samples-Counts _ (sort-All _ (by_key dir_key) snap.entries h))
                  (All-append Counts (activity_samples fmt acts) _
                    (All-append Counts _ _ (kind_samples-Counts collector _ _ refl refl acts) (
                      All-append Counts _ _ (kind_samples-Counts distributor _ _ refl refl acts)
                        (each_sample-Counts has_file file_sample acts (λ y. refl))))
                    (each_sample-Counts everything files_sample bufs (λ y. refl)))),
          )
    ]

module _ (cfg : Config) (c : Cycle) where
  -- What the scan of an entry of the list reports.
  abbrev pub IsScanOf : List WatchEntry → DirMetrics → Type 0
  IsScanOf watched dm =
      (w : WatchEntry) × Memᴰ w watched × (dm ≡ metrics_of (scan_entry cfg c w) w.labels)

  writes-All :
      (watched ws : List WatchEntry)
      → All (λ w. Memᴰ w watched) ws
      → All (IsScanOf watched) (values (map (entry_write cfg c) ws))
  unfolding entry_write
  writes-All watched [] h = tt
  writes-All watched (w ∷ ws) (m, h) = ((w, m, refl), writes-All watched ws h)

  scan_all-IsScanOf :
      (e : Exporter) → All (IsScanOf e.watch_list) (values (scan_all cfg c e).cache.maps.entries)
  unfolding idle_maps cycle_maps scan_results
  scan_all-IsScanOf e = elim (Bool-cases (is_empty e.watch_list)) [
    | inl idle ↦ rw (scan_all-maps cfg c e, idle) tt
    | inr filled ↦
        rw (scan_all-maps cfg c e, filled)
          (write_all-All _ _ []
            (writes-All e.watch_list _
              (started-All _ c.launch_done 0 e.watch_list (All-self e.watch_list)))
            tt)
  ]

-- No stale numbers. After a cycle, whenever its contexts end and whatever stood in the cache before,
-- a GET request for /metrics gets a text that can be read, and each sample directory_file_count that
-- is read has the labels of an entry of the watch list and the number that the scan of its directory
-- in this cycle counted. The verb %g writes no line end.
pub serve-scrape_fresh :
    (cfg : Config) (fmt : Format) (c : Cycle) (e : Exporter) (authorization : Bytes)
    → IsPlain fmt
    → (xs : List Sample) × (read_text
          (serve cfg fmt (get_request (codes "/metrics") authorization) (scan_all cfg c e)).0.body
        ≡ some xs)
      × All
          (λ x.
            x.name ≡ codes "directory_file_count"
            → (w : WatchEntry) × Memᴰ w e.watch_list
              × (x ≡ count_sample (metrics_of (scan_entry cfg c w) w.labels)))
          xs
unfolding serve handle_metrics snapshot
serve-scrape_fresh cfg fmt c e authorization plain =
    let k = (scan_all cfg c e).cache in
    let snap = snapshot k k k k k in
    (
      samples fmt snap,
      read_text-render_metrics fmt plain snap,
      samples-Counts _ fmt snap (
          All-weaken _ _ (values k.maps.entries) (λ dm (w, m, p). (w, m, ap count_sample p))
            (scan_all-IsScanOf cfg c e)),
    )
