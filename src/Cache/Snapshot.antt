-- ===== src/Cache/Snapshot.antt =====
-- `Snapshot` against goroutines that write between its loads.
use directory_exporter.Common.{
  ℕ, Bool, true, false, not, is_empty, List, [], ◌∷◌, ◌≡◌, arith, refl, ap,
}
use directory_exporter.Cache.{
  Maps, new_cache, zero_time, values, swap_maps, add_errors, mark_ready, incr_reload,
  set_watched_total, snapshot,
}
use directory_exporter.Cache.History.{
  Writing, Writes, WriteStep, stay, go, swap_step, count_step, mark_step, reload_step, watched_step,
  outside, Place, swapped, errors_added, start, batches, latest, finished, Holds, cache-Holds,
}

step-ready : {w v : Writing} → WriteStep w v → w.cache.ready ≡ true → v.cache.ready ≡ true
unfolding swap_maps add_errors mark_ready incr_reload set_watched_total
step-ready (swap_step m n) h = h
step-ready (count_step {c} {n}) h = ground arith
step-ready mark_step h = refl
step-ready reload_step h = h
step-ready (watched_step n) h = h

run-ready : {w v : Writing} → Writes w v → w.cache.ready ≡ true → v.cache.ready ≡ true
run-ready stay h = h
run-ready (go s r) h = run-ready r (step-ready s h)

not_ready_yet :
    (p : Place) {ready : Bool}
    → ready ≡ not (is_empty (finished p []))
    → ready ≡ true
    → true ≡ false
not_ready_yet outside h r = ground arith
not_ready_yet (swapped n) h r = ground arith
not_ready_yet errors_added h r = ground arith

kept_maps : (m : Maps) (n : ℕ) → (mark_ready (add_errors n (swap_maps m new_cache))).maps ≡ m
unfolding mark_ready add_errors swap_maps
kept_maps m n = ground arith

not_new :
    (past : List (Maps × ℕ)) {k : ℕ} (w : Writing)
    → Holds past k w
    → w.cache.ready ≡ true
    → is_empty past ≡ false
not_new [] w h ready = not_ready_yet w.place h.ready ready
not_new (b ∷ past) w h ready = refl

-- If the cache is ready when the maps are copied, whatever is written between the loads behind that:
-- the snapshot is ready, and its entries, activities, buffers and scan time are those of the batch
-- that had been swapped in last, of which there is one.
pub snapshot-warm :
    {w at_ready at_errors at_reload at_watched : Writing} (r : Writes start w)
    → Writes w at_ready
    → Writes at_ready at_errors
    → Writes at_errors at_reload
    → Writes at_reload at_watched
    → w.cache.ready ≡ true
    → let s = snapshot w.cache at_ready.cache at_errors.cache at_reload.cache at_watched.cache in
      let m = latest (batches r []) in
      (s.ready ≡ true)
      × (is_empty (batches r []) ≡ false)
      × (s.entries ≡ values m.entries)
      × (s.node_activities ≡ values m.node_activities)
      × (s.node_buffers ≡ values m.node_buffers)
      × (s.last_scan_time ≡ m.last_scan_time)
unfolding snapshot
snapshot-warm {w} r later _ _ _ h =
    let held = cache-Holds r in
    (
      run-ready later h,
      not_new (batches r []) w held h,
      ap (λ m. values m.entries) held.maps,
      ap (λ m. values m.node_activities) held.maps,
      ap (λ m. values m.node_buffers) held.maps,
      ap (λ m. m.last_scan_time) held.maps,
    )

-- During the first scan a batch can be written to its end after the maps are copied and before the
-- flag is loaded: then the snapshot is ready though it has no entry, no activity, no buffer and the
-- time of year 1, whatever the batch holds.
pub snapshot-torn :
    (m : Maps) (n : ℕ)
    → (v : Writing) × Writes start v
      × (v.cache.maps ≡ m)
      × let s = snapshot start.cache v.cache v.cache v.cache v.cache in
        (s.ready ≡ true)
        × (s.entries ≡ [])
        × (s.node_activities ≡ [])
        × (s.node_buffers ≡ [])
        × (s.last_scan_time ≡ zero_time)
unfolding snapshot swap_maps mark_ready
snapshot-torn m n = (
  record { cache = mark_ready (add_errors n (swap_maps m new_cache)); place = outside },
  go (swap_step m n) (go count_step (go mark_step stay)),
  kept_maps m n,
  (refl, refl, refl, refl, refl),
)
