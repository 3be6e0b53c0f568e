-- ===== src/Exporter/Places.antt =====
-- What no step of the loops undoes: that they have begun, that they have returned, and `stopCh`.
use directory_exporter.Common.{Bool, true, false, some, ◌≡◌, arith}
use directory_exporter.Config.{Config}
use directory_exporter.Exporter.Loops.{
  returned, Running, Event, is_starting, first_scan, scan_tick, take_signal, reload_list,
  reload_count, reload_scan, discovery_start, tick_list, tick_count, tick_signal, request, stop,
  scan_return, discovery_return, happen,
}

abbrev pub is_stop : Event → Bool
is_stop stop = true
is_stop _ = false

abbrev pub HasBegun : Running → Type 0
HasBegun r = (is_starting r.scan_loop ≡ false) × (is_starting r.discovery_loop ≡ false)

abbrev pub HasReturned : Running → Type 0
HasReturned r = (r.scan_loop ≡ returned) × (r.discovery_loop ≡ returned)

module _ (cfg : Config) where
  pub happen-stopped :
      (v : Event) (r s : Running)
      → is_stop v ≡ false
      → happen cfg v r ≡ some s
      → s.stopped ≡ r.stopped
  unfolding happen
  happen-stopped (first_scan c) r s p h = ground arith
  happen-stopped (scan_tick c) r s p h = ground arith
  happen-stopped take_signal r s p h = ground arith
  happen-stopped (reload_list fs) r s p h = ground arith
  happen-stopped reload_count r s p h = ground arith
  happen-stopped (reload_scan c) r s p h = ground arith
  happen-stopped discovery_start r s p h = ground arith
  happen-stopped (tick_list fs) r s p h = ground arith
  happen-stopped tick_count r s p h = ground arith
  happen-stopped tick_signal r s p h = ground arith
  happen-stopped request r s p h = ground arith
  happen-stopped stop r s p h = ground arith
  happen-stopped scan_return r s p h = ground arith
  happen-stopped discovery_return r s p h = ground arith

  pub happen-HasBegun :
      (v : Event) (r s : Running) → HasBegun r → happen cfg v r ≡ some s → HasBegun s
  unfolding happen
  happen-HasBegun (first_scan c) r s p h = ground arith
  happen-HasBegun (scan_tick c) r s p h = ground arith
  happen-HasBegun take_signal r s p h = ground arith
  happen-HasBegun (reload_list fs) r s p h = ground arith
  happen-HasBegun reload_count r s p h = ground arith
  happen-HasBegun (reload_scan c) r s p h = ground arith
  happen-HasBegun discovery_start r s p h = ground arith
  happen-HasBegun (tick_list fs) r s p h = ground arith
  happen-HasBegun tick_count r s p h = ground arith
  happen-HasBegun tick_signal r s p h = ground arith
  happen-HasBegun request r s p h = ground arith
  happen-HasBegun stop r s p h = ground arith
  happen-HasBegun scan_return r s p h = ground arith
  happen-HasBegun discovery_return r s p h = ground arith

  pub happen-HasReturned :
      (v : Event) (r s : Running) → HasReturned r → happen cfg v r ≡ some s → HasReturned s
  unfolding happen
  happen-HasReturned (first_scan c) r s p h = ground arith
  happen-HasReturned (scan_tick c) r s p h = ground arith
  happen-HasReturned take_signal r s p h = ground arith
  happen-HasReturned (reload_list fs) r s p h = ground arith
  happen-HasReturned reload_count r s p h = ground arith
  happen-HasReturned (reload_scan c) r s p h = ground arith
  happen-HasReturned discovery_start r s p h = ground arith
  happen-HasReturned (tick_list fs) r s p h = ground arith
  happen-HasReturned tick_count r s p h = ground arith
  happen-HasReturned tick_signal r s p h = ground arith
  happen-HasReturned request r s p h = ground arith
  happen-HasReturned stop r s p h = ground arith
  happen-HasReturned scan_return r s p h = ground arith
  happen-HasReturned discovery_return r s p h = ground arith
