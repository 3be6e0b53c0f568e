-- ===== src/Metrics/Scrape.antt =====
-- A reader of the text format gets from the output of `RenderMetrics` what the snapshot holds.
pub mod Families
use directory_exporter.Metrics.Scrape.Families.{
  IsPlain, decimal-one_line, Reads-each, each_sample-none, Reads-family, Reads-plain-family, words,
  file_labels-text, node_labels-more, Reads-dir_family, Reads-node_family,
}
use directory_exporter.Common.{
  pos, Bool, true, false, List, [], ◌∷◌, ◌++◌, some, Bytes, codes, ◌≡◌, arith, refl, sym, subst,
  Bool-cases, inl, inr,
}
use directory_exporter.Types.{DirMetrics, NodeActivity, NodeBuffer}
use directory_exporter.Go.Sort.{sort, by_key}
use directory_exporter.Activity.Nodes.{collector, distributor}
use directory_exporter.Cache.{CacheSnapshot}
use directory_exporter.Metrics.Text.{decimal, lv}
use directory_exporter.Metrics.Render.{
  Format, any, labelled, node_labels, dir_key, activity_key, buffer_key, everything, is_active,
  is_timed, has_file, ready_family, control_families, dir_families, collector_families,
  distributor_families, file_family, buffer_sample, buffer_family, entries_text, activities_text,
  buffers_text, render_metrics,
}
use directory_exporter.Metrics.Read.{read_text}
use directory_exporter.Metrics.Read.Lines.{Reads, Reads-nil, Reads-append, Reads-end}
use directory_exporter.Metrics.Read.Labels.{label_text, Reads-labelled}
use directory_exporter.Metrics.Samples.{
  each_sample, node_sample, file_sample, files_sample, ready_sample, control_samples, dir_samples,
  kind_samples, activity_samples, samples,
}

module _ (fmt : Format) (p : IsPlain fmt) where
  ready_family-Reads : (ready : Bool) → Reads (ready_family fmt ready) (ready_sample fmt ready ∷ [])
  unfolding ready_family
  ready_family-Reads ready = Reads-plain-family _ _ _ _ (words refl) (p.whole _)

  control_families-Reads :
      (snap : CacheSnapshot) → Reads (control_families fmt snap) (control_samples fmt snap)
  unfolding control_families
  control_families-Reads snap =
      Reads-append (Reads-plain-family _ _ _ _ (words refl) (p.whole snap.last_scan_time)) (
        Reads-append (Reads-plain-family _ _ _ _ (words refl) (decimal-one_line snap.watched_total))
          (Reads-append
            (Reads-plain-family _ _ _ _ (words refl) (decimal-one_line (pos snap.scan_errors)))
            (Reads-plain-family _ _ _ _ (words refl) (decimal-one_line (pos snap.reload_total)))))

  dir_families-Reads :
      (sorted : List DirMetrics) → Reads (dir_families fmt sorted) (dir_samples fmt sorted)
  unfolding dir_families
  dir_families-Reads sorted =
      Reads-append
        (Reads-dir_family fmt p _ _ _ _ (words refl) (λ dm. decimal-one_line (pos dm.file_count))
          sorted)
        (Reads-append
          (Reads-dir_family fmt p _ _ _ _ (words refl) (λ dm. p.whole dm.oldest_timestamp_sec)
            sorted)
          (Reads-append
            (Reads-dir_family fmt p _ _ _ _ (words refl) (λ dm. p.whole dm.newest_timestamp_sec)
              sorted)
            (Reads-dir_family fmt p _ _ _ _ (words refl) (λ dm. p.duration dm.scan_duration)
              sorted)))

  entries_text-Reads :
      (xs : List DirMetrics)
      → Reads (entries_text fmt xs) (dir_samples fmt (sort (by_key dir_key) xs))
  unfolding entries_text
  entries_text-Reads [] = unfold sort each_sample in Reads-nil
  entries_text-Reads (x ∷ xs) = dir_families-Reads (sort (by_key dir_key) (x ∷ xs))

  -- A timestamp is given only for a node of the kind that had success.
  timed-active :
      (kind : Bytes) (act : NodeActivity) → is_timed kind act ≡ true → is_active kind act ≡ true
  timed-active kind act h = ground arith

  kind_samples-none :
      (kind times delays : Bytes) (sorted : List NodeActivity)
      → any (is_active kind) sorted ≡ false
      → kind_samples fmt kind times delays sorted ≡ []
  kind_samples-none kind times delays sorted none_active =
      rw
        (
          each_sample-none (is_active kind) (is_timed kind)
              (node_sample times (λ act. fmt.whole act.last_activity_timestamp)) (timed-active kind)
              sorted none_active,
          each_sample-none (is_active kind) (is_active kind)
              (node_sample delays (λ act. fmt.whole act.delay_sec)) (λ act h. h) sorted none_active,
        )
        refl

  collector_families-Reads :
      (sorted : List NodeActivity)
      → Reads (collector_families fmt sorted) (
          kind_samples fmt collector
            (codes "directory_collector_last_activity_timestamp_seconds")
            (codes "directory_collector_delay_seconds")
            sorted)
  unfolding collector_families
  collector_families-Reads sorted = elim (Bool-cases (any (is_active collector) sorted)) [
    | inl active ↦ rw active (
        Reads-append
          (Reads-node_family fmt p _ _ _ _ (words refl) (λ act. p.whole act.last_activity_timestamp)
            sorted)
          (Reads-node_family fmt p _ _ _ _ (words refl) (λ act. p.whole act.delay_sec) sorted))
    | inr idle ↦ rw (idle, kind_samples-none collector _ _ sorted idle) Reads-nil
  ]

  distributor_families-Reads :
      (sorted : List NodeActivity)
      → Reads (distributor_families fmt sorted) (
          kind_samples fmt distributor
            (codes "directory_distributor_last_activity_timestamp_seconds")
            (codes "directory_distributor_delay_seconds")
            sorted)
  unfolding distributor_families
  distributor_families-Reads sorted = elim (Bool-cases (any (is_active distributor) sorted)) [
    | inl active ↦ rw active (
        Reads-append
          (Reads-node_family fmt p _ _ _ _ (words refl) (λ act. p.whole act.last_activity_timestamp)
            sorted)
          (Reads-node_family fmt p _ _ _ _ (words refl) (λ act. p.whole act.delay_sec) sorted))
    | inr idle ↦ rw (idle, kind_samples-none distributor _ _ sorted idle) Reads-nil
  ]

  file_family-Reads :
      (sorted : List NodeActivity)
      → Reads (file_family fmt sorted) (each_sample has_file file_sample sorted)
  unfolding file_family
  file_family-Reads sorted = elim (Bool-cases (any has_file sorted)) [
    | inl active ↦ rw active (
        Reads-family _ _ _ _ _ (words refl) (
          Reads-each has_file _ file_sample
            (λ act. rw (file_labels-text fmt act) (
              Reads-labelled _ (file_sample act).labels (codes "1")
                (record {
                  name_filled = refl;
                  is_name = refl;
                  labels_filled = refl;
                  are_names = (refl, (refl, (refl, (refl, (refl, tt)))));
                })
                refl))
            sorted))
    | inr idle ↦
        rw (idle, each_sample-none has_file has_file file_sample (λ act h. h) sorted idle) Reads-nil
  ]

  activities_text-Reads :
      (xs : List NodeActivity)
      → Reads (activities_text fmt xs) (activity_samples fmt (sort (by_key activity_key) xs))
  unfolding activities_text
  activities_text-Reads [] = unfold sort each_sample in Reads-nil
  activities_text-Reads (x ∷ xs) =
      let sorted = sort (by_key activity_key) (x ∷ xs) in
      Reads-append (collector_families-Reads sorted)
        (Reads-append (distributor_families-Reads sorted) (file_family-Reads sorted))

  buffer_labels-text :
      (nb : NodeBuffer)
      → node_labels nb.base nb.stream nb.node ++ (codes ",type=" ++ lv nb.node_type)
        ≡ label_text (files_sample nb).labels
  buffer_labels-text nb = node_labels-more nb.base nb.stream nb.node _

  buffers_text-Reads :
      (xs : List NodeBuffer)
      → Reads
          (buffers_text fmt xs)
          (each_sample everything files_sample (sort (by_key buffer_key) xs))
  unfolding buffers_text buffer_family buffer_sample
  buffers_text-Reads [] = unfold sort each_sample in Reads-nil
  buffers_text-Reads (x ∷ xs) = Reads-family _ _ _ _ _ (words refl) (
      Reads-each everything _ files_sample
        (λ nb.
          subst
            (λ t.
              Reads (labelled (codes "directory_buffer_files") t (decimal (pos nb.file_count)))
                (files_sample nb ∷ []))
            (sym (buffer_labels-text nb))
            (Reads-labelled _ (files_sample nb).labels _
              (record {
                name_filled = refl;
                is_name = refl;
                labels_filled = refl;
                are_names = (refl, (refl, (refl, (refl, tt))));
              })
              (decimal-one_line (pos nb.file_count))))
        (sort (by_key buffer_key) (x ∷ xs)))

  -- A reader of the text format, which undoes the escapes, reads the whole text that `RenderMetrics`
  -- writes, whatever bytes the paths, labels and file names hold, and gets exactly the samples of the
  -- snapshot, in order: the names, the labels with their values, and the texts of the numbers. The
  -- verb %g writes no line end.
  pub read_text-render_metrics :
      (snap : CacheSnapshot) → read_text (render_metrics fmt snap) ≡ some (samples fmt snap)
  unfolding render_metrics samples control_families
  read_text-render_metrics snap = elim (Bool-cases snap.ready) [
    | inl warm ↦ rw warm (
        Reads-end (
          Reads-append (ready_family-Reads true) (
            Reads-append (control_families-Reads snap) (
              Reads-append (entries_text-Reads snap.entries) (
                Reads-append (activities_text-Reads snap.node_activities)
                  (buffers_text-Reads snap.node_buffers))))))
    | inr cold ↦ rw cold (Reads-end (ready_family-Reads false))
  ]
