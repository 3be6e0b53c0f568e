-- ===== src/Exporter/Entries.antt =====
-- The entries that `ScanAll` writes into the cache.
use mathlib.Core.List.{Memᴰ}
use directory_exporter.Common.{
  if◌then◌else◌, ℕ, true, false, List, [], ◌∷◌, map, Bytes, some, ◌≡◌, arith, refl, sym, ap, subst,
  member, Distinct, keys, get, write_all, get-write_all, Reordered, write_all-Reordered, is_empty,
  Bool-cases, inl, inr, eqb_iff, eqb_refl,
}
use directory_exporter.Types.{WatchEntry, DirMetrics}
use directory_exporter.Config.{Config}
use directory_exporter.Cache.{Cache, Maps, set_batch, add_errors, swap_maps, mark_ready}
use directory_exporter.Activity.Delay.{unix}
use directory_exporter.Activity.ScanAll.{started}
use directory_exporter.Activity.Schedules.{Distinct-started, started-all}
use directory_exporter.Exporter.{
  Exporter, Cycle, entry_write, scan_entry, metrics_of, scan_results, idle_maps, cycle_maps,
  error_count, scan_all,
}

abbrev pub path_of : WatchEntry → Bytes
path_of we = we.abs_path

set_batch-maps :
    (m : Maps) (n : ℕ) (k : Cache) → ((set_batch m n k).maps ≡ m) × ((set_batch m n k).ready ≡ true)
unfolding set_batch add_errors swap_maps mark_ready
set_batch-maps m n k = ground arith

module _ (cfg : Config) (c : Cycle) where
  keys-writes : (ws : List WatchEntry) → keys (map (entry_write cfg c) ws) ≡ map path_of ws
  unfolding entry_write
  keys-writes [] = refl
  keys-writes (w ∷ ws) = ap (λ ks. w.abs_path ∷ ks) (keys-writes ws)

  writes-Distinct :
      (watched : List WatchEntry)
      → Distinct (map path_of watched)
      → Distinct (keys (map (entry_write cfg c) (started c.launch_done 0 watched)))
  writes-Distinct watched h =
      rw (keys-writes (started c.launch_done 0 watched))
        (Distinct-started path_of c.launch_done 0 watched h)

  member-Mem :
      (w : WatchEntry) (ws : List WatchEntry)
      → Memᴰ w ws
      → member (path_of w) (map path_of ws) ≡ true
  unfolding member
  member-Mem w [] m = elim m [ ]
  member-Mem w (v ∷ ws) (Memᴰ.head p) =
      rw (ap path_of (sym p)) (ground (arith, eqb_refl (path_of w)))
  member-Mem w (v ∷ ws) (Memᴰ.tail m) = ground (arith, member-Mem w ws m)

  get-writes :
      (w : WatchEntry) (ws : List WatchEntry)
      → Distinct (map path_of ws)
      → Memᴰ w ws
      → get (path_of w) (map (entry_write cfg c) ws)
        ≡ some (metrics_of (scan_entry cfg c w) w.labels)
  unfolding get entry_write
  get-writes w [] h m = elim m [ ]
  get-writes w (v ∷ ws) (new, h) (Memᴰ.head p) =
      subst
        (λ u.
          get (path_of w) (map (entry_write cfg c) (u ∷ ws))
          ≡ some (metrics_of (scan_entry cfg c w) w.labels))
        p (rw (eqb_refl (path_of w)) refl)
  get-writes w (v ∷ ws) (new, h) (Memᴰ.tail m) =
      ground (arith, get-writes w ws h m, member-Mem w ws m, eqb_iff (path_of w) (path_of v))

  pub entries_after :
      (e : Exporter)
      → is_empty e.watch_list ≡ false
      → (scan_all cfg c e).cache.maps ≡ cycle_maps cfg c e.watch_list
  unfolding scan_all
  entries_after e filled = rw (filled, scan_all) (set_batch-maps _ _ e.cache).0

  -- The maps of a cycle.
  pub scan_all-maps :
      (e : Exporter)
      → (scan_all cfg c e).cache.maps
        ≡ (if is_empty e.watch_list then idle_maps cfg c else cycle_maps cfg c e.watch_list)
  unfolding scan_all
  scan_all-maps e = elim (Bool-cases (is_empty e.watch_list)) [
    | inl idle ↦ rw (idle, scan_all) (set_batch-maps _ _ e.cache).0
    | inr filled ↦ rw (filled, scan_all) (set_batch-maps _ _ e.cache).0
  ]

  -- A cycle whose context does not end before the last directory is started, on a watch list in which
  -- no path stands twice: the cache holds for each entry what the scan of its directory reports, with
  -- the labels of the entry.
  pub scan_all_entries :
      (e : Exporter) (w : WatchEntry)
      → ((k : ℕ) → c.launch_done k ≡ false)
      → is_empty e.watch_list ≡ false
      → Distinct (map path_of e.watch_list)
      → Memᴰ w e.watch_list
      → get (path_of w) (scan_all cfg c e).cache.maps.entries
        ≡ some (metrics_of (scan_entry cfg c w) w.labels)
  unfolding cycle_maps scan_results
  scan_all_entries e w never filled h m =
      let all_started = started-all path_of c.launch_done 0 e.watch_list never in
      rw
        (
          entries_after e filled,
          all_started,
          get-write_all (path_of w) (map (entry_write cfg c) e.watch_list) []
              (rw (keys-writes e.watch_list) h),
          keys-writes e.watch_list,
          member-Mem w e.watch_list m,
        )
        (get-writes w e.watch_list h m)

  -- On a watch list in which no path stands twice, in whatever order the workers of the directories
  -- that are started write their results, each key of the entries holds the same in the end.
  pub scan_all-any_order :
      (e : Exporter) (k : Bytes) {ws : List (Bytes × DirMetrics)}
      → is_empty e.watch_list ≡ false
      → Distinct (map path_of e.watch_list)
      → Reordered
          (Bytes × DirMetrics)
          (map (entry_write cfg c) (started c.launch_done 0 e.watch_list))
          ws
      → get k (write_all ws []) ≡ get k (scan_all cfg c e).cache.maps.entries
  unfolding cycle_maps scan_results
  scan_all-any_order e k filled h r =
      rw (entries_after e filled) (sym (write_all-Reordered k r (writes-Distinct e.watch_list h)))

  -- Every cycle ends with a cache that is ready and holds the time of its end, for an empty watch
  -- list, and also if the context of the cycle ends early.
  pub scan_all-ready :
      (e : Exporter)
      → ((scan_all cfg c e).cache.ready ≡ true)
        × ((scan_all cfg c e).cache.maps.last_scan_time ≡ unix c.end_time)
  unfolding scan_all idle_maps cycle_maps
  scan_all-ready e = elim (Bool-cases (is_empty e.watch_list)) [
    | inl idle ↦
        let (maps, ready) = set_batch-maps (idle_maps cfg c) 0 e.cache in
        rw (idle, scan_all) (ready, ap (λ m. m.last_scan_time) maps)
    | inr filled ↦
        let (maps, ready) =
          set_batch-maps (cycle_maps cfg c e.watch_list) (error_count cfg c e.watch_list) e.cache in
        rw (filled, scan_all) (ready, ap (λ m. m.last_scan_time) maps)
  ]
