-- ===== src/Exporter/Overlap.antt =====
-- Both loops inside `Discover` at once.
use directory_exporter.Common.{false, [], ◌∷◌, some, ◌≡◌, refl, length}
use directory_exporter.Go.Os.{FileSystem}
use directory_exporter.Config.{Config}
use directory_exporter.Cache.{to_int32, set_watched_total}
use directory_exporter.Exporter.{Exporter, set_list, set_count}
use directory_exporter.Exporter.Loops.{
  waiting, discovered, Running, take_signal, reload_list, reload_count, tick_list, tick_count,
  found, happen, run,
}

module _ (cfg : Config) where
  -- While a signal is in the channel and both loops wait, the tick of the discovery loop and the
  -- reload can run such that the watch list is the one that the reload found, and the size that is
  -- reported is that of the list which the tick found.
  pub discover_overlap :
      (before after : FileSystem) (e : Exporter)
      → e.reload_ch ≡ 1
      → (t : Running) × (run cfg
            (take_signal ∷ tick_list before ∷ reload_list after ∷ reload_count ∷ tick_count ∷ [])
            (record {
              exporter = e;
              scan_loop = waiting;
              discovery_loop = waiting;
              stopped = false;
            })
          ≡ some t)
        × (t.exporter.watch_list ≡ found cfg after)
        × (t.exporter.cache.watched_total ≡ to_int32 (length (found cfg before)))
  unfolding run happen set_list set_count set_watched_total
  discover_overlap before after e h = (
    record {
      exporter = set_count (length (found cfg before)) (
          set_count (length (found cfg after)) (
            set_list (found cfg after) (set_list (found cfg before) (record e { reload_ch = 0 }))));
      scan_loop = discovered;
      discovery_loop = discovered;
      stopped = false;
    },
    rw h refl,
    refl,
    refl,
  )
