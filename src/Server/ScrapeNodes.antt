-- ===== src/Server/ScrapeNodes.antt =====
-- From the activity of a stream node to what a scraper reads in the response of /metrics.
use mathlib.Core.List.{Memᴰ}
use mathlib.Core.List.Memᴰ
use directory_exporter.Common.{
  ℕ, Bool, true, false, ◌&&◌, List, ◌++◌, some, Bytes, codes, if◌then◌else◌, is_empty, eqb,
  eqb_refl, get, ◌≡◌, ◌⊎◌, arith, refl, sym, ap, ◌∙◌, subst, Bool-cases, inl, inr,
}
use directory_exporter.Types.{StreamNode, NodeActivity}
use directory_exporter.Go.Sort.{sort, sort-Mem, by_key}
use directory_exporter.Config.{Config}
use directory_exporter.Activity.Nodes.{collector, distributor, discover_stream_nodes}
use directory_exporter.Activity.ScanAll.{typed_key, node_activity}
use directory_exporter.Activity.AnyOrder.{node_activity-IsOf}
use directory_exporter.Activity.Written.{scan_all_node_activities-written}
use directory_exporter.Cache.{CacheSnapshot, snapshot}
use directory_exporter.Exporter.{Exporter, Cycle, background, idle_maps, cycle_maps, scan_all}
use directory_exporter.Exporter.Entries.{scan_all-ready, scan_all-maps}
use directory_exporter.Metrics.Render.{
  Format, everything, is_active, is_timed, has_file, dir_key, activity_key, buffer_key,
}
use directory_exporter.Metrics.Read.{Sample, read_text}
use directory_exporter.Metrics.Samples.{
  each_sample, node_sample, file_sample, files_sample, kind_samples, control_samples, dir_samples,
  activity_samples, samples,
}
use directory_exporter.Metrics.Scrape.{read_text-render_metrics}
use directory_exporter.Metrics.Scrape.Families.{IsPlain}
use directory_exporter.Server.{serve, handle_metrics}
use directory_exporter.Server.Lifecycle.{get_request}
use directory_exporter.Server.Scrape.{get-values, each_sample-Mem}

-- The metric of the delay of a node, by its kind.
abbrev pub delay_name : Bytes → Bytes
delay_name kind =
    if eqb kind collector
    then codes "directory_collector_delay_seconds"
    else codes "directory_distributor_delay_seconds"

module _ (fmt : Format) where
  abbrev pub delay_sample : NodeActivity → Sample
  delay_sample act = node_sample (delay_name act.node_type) (λ a. fmt.whole a.delay_sec) act

  -- The delays of a kind of node.
  kind-Mem :
      (kind times delays : Bytes) (act : NodeActivity) (sorted : List NodeActivity)
      → act.node_type ≡ kind
      → act.success ≡ true
      → Memᴰ act sorted
      → Memᴰ
          (node_sample delays (λ a. fmt.whole a.delay_sec) act)
          (kind_samples fmt kind times delays sorted)
  kind-Mem kind times delays act sorted p success m =
      let active : is_active kind act ≡ true =
        ap (λ k. eqb act.node_type k && act.success) (sym p)
        ∙ ground (arith, eqb_refl act.node_type) in
      Memᴰ.append_right
        (each_sample (is_timed kind) (node_sample times (λ a. fmt.whole a.last_activity_timestamp))
          sorted)
        (each_sample-Mem (is_active kind) (node_sample delays (λ a. fmt.whole a.delay_sec)) act
          sorted active m)

  delay-Mem :
      (act : NodeActivity) (sorted : List NodeActivity)
      → (act.node_type ≡ collector) ⊎ (act.node_type ≡ distributor)
      → act.success ≡ true
      → Memᴰ act sorted
      → Memᴰ (delay_sample act) (activity_samples fmt sorted)
  delay-Mem act sorted kind success m =
      let named = λ (name : Bytes). node_sample name (λ a. fmt.whole a.delay_sec) act in
      let collectors =
        kind_samples fmt collector (codes "directory_collector_last_activity_timestamp_seconds")
          (codes "directory_collector_delay_seconds") sorted in
      let distributors =
        kind_samples fmt distributor (codes "directory_distributor_last_activity_timestamp_seconds")
          (codes "directory_distributor_delay_seconds") sorted in
      let files = each_sample has_file file_sample sorted in
      elim kind [
        | inl p ↦
            subst (λ k. Memᴰ (named (delay_name k)) (activity_samples fmt sorted)) (sym p)
              (Memᴰ.append_left (distributors ++ files)
                (kind-Mem collector _ _ act sorted p success m))
        | inr p ↦
            subst (λ k. Memᴰ (named (delay_name k)) (activity_samples fmt sorted)) (sym p)
              (Memᴰ.append_right collectors
                (Memᴰ.append_left files (kind-Mem distributor _ _ act sorted p success m)))
      ]

  node-samples-Mem :
      (snap : CacheSnapshot) (act : NodeActivity)
      → snap.ready ≡ true
      → (act.node_type ≡ collector) ⊎ (act.node_type ≡ distributor)
      → act.success ≡ true
      → Memᴰ act snap.node_activities
      → Memᴰ (delay_sample act) (samples fmt snap)
  unfolding samples
  node-samples-Mem snap act warm kind success m =
      let sorted = sort (by_key activity_key) snap.node_activities in
      rw warm (
        Memᴰ.tail (
          Memᴰ.append_right (control_samples fmt snap) (
            Memᴰ.append_right (dir_samples fmt (sort (by_key dir_key) snap.entries)) (
              Memᴰ.append_left
                (each_sample everything files_sample (sort (by_key buffer_key) snap.node_buffers))
                (delay-Mem act sorted kind success
                  (sort-Mem (by_key activity_key) act snap.node_activities m))))))

-- What a cycle writes for a node, whether or not the watch list is empty.
activities_after :
    (cfg : Config) (c : Cycle) (e : Exporter) (sn : StreamNode) (act : NodeActivity)
    → ((k : ℕ) → c.activity_done k ≡ false)
    → Memᴰ sn (discover_stream_nodes c.fs cfg.targets)
    → node_activity c.fs c.clock cfg.min_delay c.now cfg.tracelog_dir cfg.trace_lookback_days sn
      ≡ some act
    → act.success ≡ true
    → get
        (typed_key act.base act.stream act.node act.node_type)
        (scan_all cfg c e).cache.maps.node_activities
      ≡ some act
unfolding idle_maps cycle_maps
activities_after cfg c e sn act never m p success =
    let written = λ (done : ℕ → Bool) (d : (k : ℕ) → done k ≡ false).
      scan_all_node_activities-written c.fs c.clock cfg.min_delay c.now cfg.tracelog_dir
        cfg.trace_lookback_days cfg.targets done sn act d m p success in
    elim (Bool-cases (is_empty e.watch_list)) [
      | inl idle ↦ rw (scan_all-maps cfg c e, idle) (written background (λ k. refl))
      | inr filled ↦ rw (scan_all-maps cfg c e, filled) (written c.activity_done never)
    ]

-- From the files of a node to the scraper. After a cycle whose context does not end before the last
-- node is started, whatever the watch list is, a GET request for /metrics gets a text that can be
-- read, and what is read holds, for each discovered node with an activity that is a success, a sample
-- of the delay of its kind with the names of the node and the delay. The verb %g writes no line end.
pub serve-scrape_delay :
    (cfg : Config) (fmt : Format) (c : Cycle) (e : Exporter) (sn : StreamNode) (act : NodeActivity)
    (authorization : Bytes)
    → IsPlain fmt
    → ((k : ℕ) → c.activity_done k ≡ false)
    → Memᴰ sn (discover_stream_nodes c.fs cfg.targets)
    → node_activity c.fs c.clock cfg.min_delay c.now cfg.tracelog_dir cfg.trace_lookback_days sn
      ≡ some act
    → act.success ≡ true
    → (xs : List Sample) × (read_text
          (serve cfg fmt (get_request (codes "/metrics") authorization) (scan_all cfg c e)).0.body
        ≡ some xs)
      × Memᴰ (delay_sample fmt act) xs
unfolding serve handle_metrics snapshot
serve-scrape_delay cfg fmt c e sn act authorization plain never m p success =
    let k = (scan_all cfg c e).cache in
    let snap = snapshot k k k k k in
    let of_node =
      node_activity-IsOf c.fs c.clock cfg.min_delay c.now cfg.tracelog_dir cfg.trace_lookback_days
        sn act p in
    (
      samples fmt snap,
      read_text-render_metrics fmt plain snap,
      node-samples-Mem fmt snap act (scan_all-ready cfg c e).0 of_node.kind success (
          get-values _ act k.maps.node_activities
            (activities_after cfg c e sn act never m p success)),
    )
