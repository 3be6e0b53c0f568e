-- ===== src/Cache.antt =====
-- cache.go: `Cache`. A batch is written in three steps that other goroutines may come between: the
-- swap under the lock, the error counter, and the ready flag.
pub mod History
pub mod Snapshot
mod Tests
use directory_exporter.Common.{
  ℕ, ◌+◌, ◌%◌, ◌^◌, ◌-◌, ℤ, pos, negsuc, ltb, Bool, true, false, List, [], map, Bytes,
  if◌then◌else◌,
}
use directory_exporter.Types.{DirMetrics, NodeActivity, NodeBuffer}

-- The maps that the lock protects, and the atomic counters. An instant is in seconds.
pub record Maps : Type 0 where
  pub entries : List (Bytes × DirMetrics)
  pub node_activities : List (Bytes × NodeActivity)
  pub node_buffers : List (Bytes × NodeBuffer)
  pub last_scan_time : ℤ

pub record Cache : Type 0 where
  pub maps : Maps
  pub ready : Bool
  pub scan_errors : ℕ
  pub reload_total : ℕ
  pub watched_total : ℤ

-- `time.Time{}`: the first second of year 1.
abbrev pub zero_time : ℤ
zero_time = negsuc 62135596799

abbrev pub no_maps : Maps
no_maps = record {
  entries = [];
  node_activities = [];
  node_buffers = [];
  last_scan_time = zero_time;
}

abbrev pub new_cache : Cache
new_cache = record {
  maps = no_maps;
  ready = false;
  scan_errors = 0;
  reload_total = 0;
  watched_total = pos 0;
}

-- `int32(n)`
abbrev pub to_int32 : ℕ → ℤ
to_int32 n = let r = n % 2 ^ 32 in if ltb r (2 ^ 31) then pos r else negsuc (2 ^ 32 - 1 - r)

-- The three steps of `SetBatch`.
unfoldable pub swap_maps : Maps → Cache → Cache
swap_maps m c = record c { maps = m }

unfoldable pub add_errors : ℕ → Cache → Cache
add_errors n c = if ltb 0 n then record c { scan_errors = (c.scan_errors + n) % 2 ^ 64 } else c

unfoldable pub mark_ready : Cache → Cache
mark_ready c = record c { ready = true }

unfoldable pub set_batch : Maps → ℕ → Cache → Cache
unfolding swap_maps add_errors mark_ready
set_batch m new_errors c = mark_ready (add_errors new_errors (swap_maps m c))

unfoldable pub incr_reload : Cache → Cache
incr_reload c = record c { reload_total = (c.reload_total + 1) % 2 ^ 64 }

unfoldable pub set_watched_total : ℕ → Cache → Cache
set_watched_total n c = record c { watched_total = to_int32 n }

abbrev pub is_ready : Cache → Bool
is_ready c = c.ready

pub record CacheSnapshot : Type 0 where
  pub entries : List DirMetrics
  pub node_activities : List NodeActivity
  pub node_buffers : List NodeBuffer
  pub last_scan_time : ℤ
  pub ready : Bool
  pub scan_errors : ℕ
  pub reload_total : ℕ
  pub watched_total : ℤ

abbrev pub values {ℓ} : {V : Type ℓ} → List (Bytes × V) → List V
values = map (λ w. w.1)

-- The maps are copied under the lock, from the cache as it is then; each counter is loaded behind
-- that, from the cache as it has become.
unfoldable pub snapshot : Cache → Cache → Cache → Cache → Cache → CacheSnapshot
snapshot locked at_ready at_errors at_reload at_watched = record {
  entries = values locked.maps.entries;
  node_activities = values locked.maps.node_activities;
  node_buffers = values locked.maps.node_buffers;
  last_scan_time = locked.maps.last_scan_time;
  ready = at_ready.ready;
  scan_errors = at_errors.scan_errors;
  reload_total = at_reload.reload_total;
  watched_total = at_watched.watched_total;
}
