-- ===== src/Exporter/Shutdown.antt =====
-- exporter.go: `Stop`, and the returns of the two loops behind it.
use directory_exporter.Common.{
  ℕ, ◌≢◌, none, ◌+◌, ◌≤◌, Bool, true, false, [], ◌∷◌, some, if◌then◌else◌, ◌≡◌, ◌⊎◌, inl, inr,
  arith, refl,
}
use directory_exporter.Go.Os.{FileSystem}
use directory_exporter.Config.{Config}
use directory_exporter.Exporter.{Cycle, scan_all}
use directory_exporter.Exporter.Loops.{
  Place, starting, waiting, signalled, is_signalled, listed, discovered, returned, Running, Event,
  first_scan, scan_tick, take_signal, reload_list, reload_count, reload_scan, discovery_start,
  tick_list, tick_count, tick_signal, request, stop, scan_return, discovery_return, happen, run,
  launch, wait_count,
}
use directory_exporter.Exporter.Places.{HasBegun, HasReturned}

-- The steps of a loop from a place to its return, if its `select` takes the case of `stopCh`.
abbrev pub steps_left : Place → ℕ
steps_left starting = 2
steps_left waiting = 1
steps_left signalled = 4
steps_left (listed n) = 3
steps_left discovered = 2
steps_left returned = 0

abbrev pub all_steps_left : Running → ℕ
all_steps_left r = steps_left r.scan_loop + steps_left r.discovery_loop

-- The events of the loops.
abbrev pub is_loop_step : Event → Bool
is_loop_step request = false
is_loop_step stop = false
is_loop_step _ = true

-- A `select` that takes another case than that of `stopCh`.
abbrev pub takes_other : Event → Bool
takes_other (scan_tick c) = true
takes_other take_signal = true
takes_other (tick_list fs) = true
takes_other _ = false

abbrev pub IsPrompt : Event → Type 0
IsPrompt v = takes_other v ≡ false

module _ (cfg : Config) where
  pub happen-steps_left :
      (v : Event) (r s : Running)
      → r.stopped ≡ true
      → IsPrompt v
      → happen cfg v r ≡ some s
      → (s.stopped ≡ true)
        × (all_steps_left s + (if is_loop_step v then 1 else 0) ≡ all_steps_left r)
  unfolding happen
  happen-steps_left (first_scan c) r s st p h = ground arith
  happen-steps_left (scan_tick c) r s st p h = ground arith
  happen-steps_left take_signal r s st p h = ground arith
  happen-steps_left (reload_list fs) r s st p h = ground arith
  happen-steps_left reload_count r s st p h = ground arith
  happen-steps_left (reload_scan c) r s st p h = ground arith
  happen-steps_left discovery_start r s st p h = ground arith
  happen-steps_left (tick_list fs) r s st p h = ground arith
  happen-steps_left tick_count r s st p h = ground arith
  happen-steps_left tick_signal r s st p h = ground arith
  happen-steps_left request r s st p h = ground arith
  happen-steps_left stop r s st p h = ground arith
  happen-steps_left scan_return r s st p h = ground arith
  happen-steps_left discovery_return r s st p h = ground arith

  pub happen-discovery_place :
      (v : Event) (r s : Running)
      → is_signalled r.discovery_loop ≡ false
      → happen cfg v r ≡ some s
      → is_signalled s.discovery_loop ≡ false
  unfolding happen
  happen-discovery_place (first_scan c) r s p h = ground arith
  happen-discovery_place (scan_tick c) r s p h = ground arith
  happen-discovery_place take_signal r s p h = ground arith
  happen-discovery_place (reload_list fs) r s p h = ground arith
  happen-discovery_place reload_count r s p h = ground arith
  happen-discovery_place (reload_scan c) r s p h = ground arith
  happen-discovery_place discovery_start r s p h = ground arith
  happen-discovery_place (tick_list fs) r s p h = ground arith
  happen-discovery_place tick_count r s p h = ground arith
  happen-discovery_place tick_signal r s p h = ground arith
  happen-discovery_place request r s p h = ground arith
  happen-discovery_place stop r s p h = ground arith
  happen-discovery_place scan_return r s p h = ground arith
  happen-discovery_place discovery_return r s p h = ground arith

  -- A step of a loop can happen that is not another case of its `select`.
  abbrev pub CanStep : Running → Type 0
  CanStep r = (v : Event) × IsPrompt v × (is_loop_step v ≡ true) × (happen cfg v r ≢ none)

  module _ (fs : FileSystem) (c : Cycle) (r : Running) (stopped : r.stopped ≡ true) where
    scan_loop-CanStep : (p : Place) → r.scan_loop ≡ p → (p ≡ returned) ⊎ CanStep r
    unfolding happen
    scan_loop-CanStep starting q = inr (first_scan c, refl, refl, ground arith)
    scan_loop-CanStep waiting q = inr (scan_return, refl, refl, ground arith)
    scan_loop-CanStep signalled q = inr (reload_list fs, refl, refl, ground arith)
    scan_loop-CanStep (listed n) q = inr (reload_count, refl, refl, ground arith)
    scan_loop-CanStep discovered q = inr (reload_scan c, refl, refl, ground arith)
    scan_loop-CanStep returned q = inl refl

    discovery_loop-CanStep :
        (p : Place) → is_signalled p ≡ false → r.discovery_loop ≡ p → (p ≡ returned) ⊎ CanStep r
    unfolding happen
    discovery_loop-CanStep starting o q = inr (discovery_start, refl, refl, ground arith)
    discovery_loop-CanStep waiting o q = inr (discovery_return, refl, refl, ground arith)
    discovery_loop-CanStep signalled o q = absurd (cc o)
    discovery_loop-CanStep (listed n) o q = inr (tick_count, refl, refl, ground arith)
    discovery_loop-CanStep discovered o q = inr (tick_signal, refl, refl, ground arith)
    discovery_loop-CanStep returned o q = inl refl

    pub all-CanStep : is_signalled r.discovery_loop ≡ false → HasReturned r ⊎ CanStep r
    all-CanStep o = elim (scan_loop-CanStep r.scan_loop refl) [
      | inr step ↦ inr step
      | inl p ↦ elim (discovery_loop-CanStep r.discovery_loop o refl) [
        | inr step ↦ inr step
        | inl q ↦ inl (p, q)
      ]
    ]

  pub steps_left-bound :
      (r : Running) → is_signalled r.discovery_loop ≡ false → all_steps_left r ≤ 7
  steps_left-bound r o = ground arith

module _ (cfg : Config) where
  -- A loop adds itself to the wait group only when it runs. If `Stop` is called before that, its wait
  -- finds the group empty and is over at once, and the scan loop still begins behind it, and scans.
  pub stop_early :
      (fs : FileSystem) (c : Cycle)
      → (s : Running) × (t : Running) × (run cfg (stop ∷ []) (launch cfg fs) ≡ some s)
        × (wait_count s ≡ 0)
        × (run cfg (first_scan c ∷ []) s ≡ some t)
        × (t.exporter ≡ scan_all cfg c (launch cfg fs).exporter)
  unfolding run happen launch wait_count
  stop_early fs c = (
    record (launch cfg fs) { stopped = true },
    record (launch cfg fs) {
      exporter = scan_all cfg c (launch cfg fs).exporter;
      scan_loop = waiting;
      stopped = true;
    },
    refl,
    refl,
    refl,
    refl,
  )

  -- Where both loops have begun, the wait of `Stop` is over only when both have returned.
  pub stop_waits : (r : Running) → HasBegun r → wait_count r ≡ 0 → HasReturned r
  unfolding wait_count
  stop_waits r p h = ground arith
