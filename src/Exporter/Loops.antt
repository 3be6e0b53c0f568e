-- ===== src/Exporter/Loops.antt =====
-- exporter.go: `RunScanLoop`, `RunDiscoveryLoop` and `Stop`; server.go and main.go: who calls what. A
-- run is a sequence of events. Both loops call `Discover`, and no lock keeps them apart there, so that
-- its two steps are events. A cycle is one event: it takes a copy of the watch list at its start, and
-- what it writes at its end no other event reads or writes.
use directory_exporter.Common.{
  ℕ, ◌+◌, not, ltb, ◌-◌, Bool, true, false, List, [], ◌∷◌, Option, none, some, if◌then◌else◌,
  length,
}
use directory_exporter.Types.{WatchEntry}
use directory_exporter.Go.Os.{FileSystem}
use directory_exporter.Config.{Config}
use directory_exporter.Watch.Targets.{discover_targets}
use directory_exporter.Exporter.{
  Exporter, Cycle, new_exporter, trigger_reload, send_signal, set_list, set_count, discover,
  scan_all,
}

-- Where a loop is: in front of its first step, at the `select`, behind a signal that it has taken,
-- behind the first step of `Discover` with the size that is still to be written, behind the second
-- step, or behind its return.
pub data Place : Type 0 where
  starting : Place
  waiting : Place
  signalled : Place
  listed : ℕ → Place
  discovered : Place
  returned : Place

pub record Running : Type 0 where
  pub exporter : Exporter
  pub scan_loop : Place
  pub discovery_loop : Place
  pub stopped : Bool

pub data Event : Type 0 where
  -- the scan loop: `ScanAll` before the loop and for a tick
  first_scan : Cycle → Event
  scan_tick : Cycle → Event
  -- the scan loop: the signal, the two steps of `Discover`, and `ScanAll`
  take_signal : Event
  reload_list : FileSystem → Event
  reload_count : Event
  reload_scan : Cycle → Event
  -- the discovery loop: its start, the two steps of `Discover` for a tick, and the signal
  discovery_start : Event
  tick_list : FileSystem → Event
  tick_count : Event
  tick_signal : Event
  -- `POST /-/reload`
  request : Event
  -- `close(stopCh)`, and the returns of the loops
  stop : Event
  scan_return : Event
  discovery_return : Event

abbrev pub is_starting : Place → Bool
is_starting starting = true
is_starting _ = false

abbrev pub is_waiting : Place → Bool
is_waiting waiting = true
is_waiting _ = false

abbrev pub is_signalled : Place → Bool
is_signalled signalled = true
is_signalled _ = false

abbrev pub is_discovered : Place → Bool
is_discovered discovered = true
is_discovered _ = false

-- The size that is to be written.
abbrev pub to_count : Place → Option ℕ
to_count (listed n) = some n
to_count _ = none

abbrev pub guard {ℓ} : {A : Type ℓ} → Bool → A → Option A
guard b a = if b then some a else none

module _ (cfg : Config) where
  abbrev pub found : FileSystem → List WatchEntry
  found fs = (discover_targets fs cfg.targets).0

  -- The state behind an event, if it can happen.
  unfoldable pub happen : Event → Running → Option Running
  happen (first_scan c) r =
      guard (is_starting r.scan_loop)
        (record r { exporter = scan_all cfg c r.exporter; scan_loop = waiting })
  happen (scan_tick c) r =
      guard (is_waiting r.scan_loop) (record r { exporter = scan_all cfg c r.exporter })
  happen take_signal r =
      if is_waiting r.scan_loop
      then guard (ltb 0 r.exporter.reload_ch) (record r {
        exporter = record r.exporter { reload_ch = r.exporter.reload_ch - 1 };
        scan_loop = signalled;
      })
      else none
  happen (reload_list fs) r = guard (is_signalled r.scan_loop) (record r {
    exporter = set_list (found fs) r.exporter;
    scan_loop = listed (length (found fs));
  })
  happen reload_count r = elim (to_count r.scan_loop) [
    | none ↦ none
    | some n ↦ some (record r { exporter = set_count n r.exporter; scan_loop = discovered })
  ]
  happen (reload_scan c) r =
      guard (is_discovered r.scan_loop)
        (record r { exporter = scan_all cfg c r.exporter; scan_loop = waiting })
  happen discovery_start r =
      guard (is_starting r.discovery_loop) (record r { discovery_loop = waiting })
  happen (tick_list fs) r = guard (is_waiting r.discovery_loop) (record r {
    exporter = set_list (found fs) r.exporter;
    discovery_loop = listed (length (found fs));
  })
  happen tick_count r = elim (to_count r.discovery_loop) [
    | none ↦ none
    | some n ↦ some (record r { exporter = set_count n r.exporter; discovery_loop = discovered })
  ]
  happen tick_signal r = guard (is_discovered r.discovery_loop) (record r {
    exporter = record r.exporter { reload_ch = send_signal r.exporter.reload_ch };
    discovery_loop = waiting;
  })
  happen request r = some (record r { exporter = trigger_reload r.exporter })
  happen stop r = guard (not r.stopped) (record r { stopped = true })
  happen scan_return r =
      if r.stopped then guard (is_waiting r.scan_loop) (record r { scan_loop = returned }) else none
  happen discovery_return r =
      if r.stopped
      then guard (is_waiting r.discovery_loop) (record r { discovery_loop = returned })
      else none

  unfoldable pub run : List Event → Running → Option Running
  run [] r = some r
  run (v ∷ vs) r = elim (happen v r) [ none ↦ none | some s ↦ run vs s ]

  -- `main` discovers before it starts the loops.
  unfoldable pub launch : FileSystem → Running
  launch fs = record {
    exporter = (discover cfg fs new_exporter).0;
    scan_loop = starting;
    discovery_loop = starting;
    stopped = false;
  }

-- The counter of the wait group: a loop adds itself when it begins, and takes itself off when it
-- returns.
abbrev pub in_group : Place → ℕ
in_group starting = 0
in_group returned = 0
in_group _ = 1

unfoldable pub wait_count : Running → ℕ
wait_count r = in_group r.scan_loop + in_group r.discovery_loop
