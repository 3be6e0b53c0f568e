-- ===== src/Server/Probes.antt =====
-- The readiness probe and the cold start of /metrics, by what was written to the cache.
use directory_exporter.Common.{false, not, [], is_empty, if◌then◌else◌, ◌≡◌, arith, refl, ap, ◌∙◌}
use directory_exporter.Config.{Config}
use directory_exporter.Cache.{snapshot}
use directory_exporter.Cache.History.{Writing, Writes, start, batches, finished, cache-Holds}
use directory_exporter.Exporter.{Exporter}
use directory_exporter.Metrics.Render.{Format, ready_family, render_metrics}
use directory_exporter.Server.{handle_metrics, handle_ready}

module _ (cfg : Config) (fmt : Format) where
  pub ready_status :
      (e : Exporter) → (handle_ready cfg fmt e).status ≡ (if e.cache.ready then 200 else 503)
  unfolding handle_ready
  ready_status e = ground arith

  pub cold_body :
      (e : Exporter)
      → e.cache.ready ≡ false
      → (handle_metrics cfg fmt e).body ≡ ready_family fmt false
  unfolding handle_metrics render_metrics snapshot
  cold_body e h = rw h refl

  -- At every moment of every interleaving of the writers of the cache: the readiness probe answers
  -- 200 if a batch has been finished, else 503; and as long as none has been finished, /metrics holds
  -- the family directory_cache_ready with the value 0 and nothing else.
  pub probes-finished :
      {w : Writing} (r : Writes start w) (e : Exporter)
      → e.cache ≡ w.cache
      → let warm = not (is_empty (finished w.place (batches r []))) in
        ((handle_ready cfg fmt e).status ≡ (if warm then 200 else 503))
        × (warm ≡ false → (handle_metrics cfg fmt e).body ≡ ready_family fmt false)
  probes-finished r e same_cache =
      let ready = ap (λ c. c.ready) same_cache ∙ (cache-Holds r).ready in
      (ready_status e ∙ ap (λ b. if b then 200 else 503) ready, λ cold. cold_body e (ready ∙ cold))
