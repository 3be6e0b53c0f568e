-- ===== src/Metrics/Stable.antt =====
-- The output of `RenderMetrics` does not depend on the order in which Go walks the maps.
use directory_exporter.Common.{
  List, map, ◌≡◌, refl, ◌∙◌, Distinct, Reordered, same, keep, swap, then_also, is_empty,
}
use directory_exporter.Types.{DirMetrics, NodeActivity, NodeBuffer}
use directory_exporter.Go.Sort.{sort-Reordered}
use directory_exporter.Cache.{CacheSnapshot}
use directory_exporter.Metrics.Render.{
  Format, dir_key, activity_key, buffer_key, entries_text, activities_text, buffers_text,
  render_metrics, control_families,
}

is_empty-Reordered {ℓ} :
    {A : Type ℓ} {xs ys : List A} → Reordered A xs ys → is_empty xs ≡ is_empty ys
is_empty-Reordered same = refl
is_empty-Reordered (keep x r) = refl
is_empty-Reordered (swap x y) = refl
is_empty-Reordered (then_also r s) = is_empty-Reordered r ∙ is_empty-Reordered s

-- Two snapshots of the same cache: the maps in whatever order, the counters alike.
pub record SameContent (s t : CacheSnapshot) : Type 0 where
  pub entries : Reordered DirMetrics s.entries t.entries
  pub activities : Reordered NodeActivity s.node_activities t.node_activities
  pub buffers : Reordered NodeBuffer s.node_buffers t.node_buffers
  pub last_scan_time : s.last_scan_time ≡ t.last_scan_time
  pub ready : s.ready ≡ t.ready
  pub scan_errors : s.scan_errors ≡ t.scan_errors
  pub reload_total : s.reload_total ≡ t.reload_total
  pub watched_total : s.watched_total ≡ t.watched_total

module _ (fmt : Format) where
  entries_text-Reordered :
      {xs ys : List DirMetrics}
      → Reordered DirMetrics xs ys
      → Distinct (map dir_key xs)
      → entries_text fmt xs ≡ entries_text fmt ys
  unfolding entries_text
  entries_text-Reordered r h = rw (is_empty-Reordered r, sort-Reordered dir_key r h) refl

  activities_text-Reordered :
      {xs ys : List NodeActivity}
      → Reordered NodeActivity xs ys
      → Distinct (map activity_key xs)
      → activities_text fmt xs ≡ activities_text fmt ys
  unfolding activities_text
  activities_text-Reordered r h = rw (is_empty-Reordered r, sort-Reordered activity_key r h) refl

  buffers_text-Reordered :
      {xs ys : List NodeBuffer}
      → Reordered NodeBuffer xs ys
      → Distinct (map buffer_key xs)
      → buffers_text fmt xs ≡ buffers_text fmt ys
  unfolding buffers_text
  buffers_text-Reordered r h = rw (is_empty-Reordered r, sort-Reordered buffer_key r h) refl

  -- Two snapshots with the same counters and the same entries, activities and buffers in whatever
  -- order are rendered to the same text, if no two entries have the same base, stream and type as a
  -- key, and no two activities and no two buffers the same base, stream, node and type.
  pub render_metrics-stable :
      (s t : CacheSnapshot)
      → SameContent s t
      → Distinct (map dir_key s.entries)
      → Distinct (map activity_key s.node_activities)
      → Distinct (map buffer_key s.node_buffers)
      → render_metrics fmt s ≡ render_metrics fmt t
  unfolding render_metrics control_families
  render_metrics-stable s t h d e f =
      rw
        (
          h.ready,
          h.last_scan_time,
          h.scan_errors,
          h.reload_total,
          h.watched_total,
          entries_text-Reordered h.entries d,
          activities_text-Reordered h.activities e,
          buffers_text-Reordered h.buffers f,
        )
        refl
