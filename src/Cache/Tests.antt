-- ===== src/Cache/Tests.antt =====
-- A batch of one directory, a reload during the batch, and a scrape behind it.
use directory_exporter.Common.{pos, true, false, [], ◌∷◌, ◌≡◌, refl, codes, is_empty}
use directory_exporter.Types.{DirMetrics}
use directory_exporter.Cache.{
  Maps, new_cache, zero_time, set_batch, swap_maps, add_errors, mark_ready, incr_reload,
  set_watched_total, snapshot,
}
use directory_exporter.Cache.History.{
  Writing, Writes, stay, go, swap_step, count_step, mark_step, reload_step, watched_step, start,
  batches, outside, Holds, cache-Holds,
}
use directory_exporter.Cache.Snapshot.{snapshot-warm, snapshot-torn}

abbrev orders : DirMetrics
orders = record {
  file_count = 3;
  oldest_timestamp_sec = pos 10;
  newest_timestamp_sec = pos 20;
  scan_duration = 5;
  scan_success = 1;
  truncated = false;
  labels = record { base = codes "prod"; stream = codes "orders"; kind = [] };
}

abbrev batch : Maps
batch = record {
  entries = (codes "/s/orders", orders) ∷ [];
  node_activities = [];
  node_buffers = [];
  last_scan_time = pos 1700;
}

abbrev warm : Writing
warm = record {
  cache = mark_ready (add_errors 2 (incr_reload (swap_maps batch (set_watched_total 1 new_cache))));
  place = outside;
}

abbrev first_batch : Writes start warm
first_batch =
    go (watched_step 1)
      (go (swap_step batch 2) (go reload_step (go count_step (go mark_step stay))))

cache-Holds_example : Holds ((batch, 2) ∷ []) 1 warm
cache-Holds_example = cache-Holds first_batch

same_batch : set_batch batch 2 new_cache ≡ record {
  maps = batch;
  ready = true;
  scan_errors = 2;
  reload_total = 0;
  watched_total = pos 0;
}
unfolding set_batch
same_batch = refl

snapshot-warm_example :
    let s = snapshot warm.cache warm.cache warm.cache warm.cache warm.cache in
    (s.ready ≡ true)
    × (is_empty (batches first_batch []) ≡ false)
    × (s.entries ≡ orders ∷ [])
    × (s.node_activities ≡ [])
    × (s.node_buffers ≡ [])
    × (s.last_scan_time ≡ pos 1700)
unfolding mark_ready
snapshot-warm_example = snapshot-warm first_batch stay stay stay stay refl

snapshot-torn_example :
    (v : Writing) × Writes start v
    × (v.cache.maps ≡ batch)
    × let s = snapshot start.cache v.cache v.cache v.cache v.cache in
      (s.ready ≡ true)
      × (s.entries ≡ [])
      × (s.node_activities ≡ [])
      × (s.node_buffers ≡ [])
      × (s.last_scan_time ≡ zero_time)
snapshot-torn_example = snapshot-torn batch 2
