-- ===== src/Exporter/Requests.antt =====
-- A reload request is followed by a discovery and a scan of its own.
use directory_exporter.Common.{
  ◌-◌, length, ℕ, ◌≤◌, Bool, true, false, List, [], ◌∷◌, some, ◌≡◌, ◌⊎◌, inl, inr, arith, subst,
  refl, ◌∙◌,
}
use directory_exporter.Go.Os.{FileSystem}
use directory_exporter.Config.{Config}
use directory_exporter.Exporter.{Cycle, trigger_reload, set_list, set_count, scan_all}
use directory_exporter.Exporter.Loops.{
  Place, starting, waiting, signalled, listed, discovered, returned, Running, Event, first_scan,
  scan_tick, take_signal, reload_list, reload_count, reload_scan, discovery_start, tick_list,
  tick_count, tick_signal, request, stop, scan_return, discovery_return, happen, run, found,
}
use directory_exporter.Exporter.Signals.{scan_all-channel, run-step, run-end}

-- How far a request has come: its signal is in the channel, the scan loop has taken a signal since the
-- request, it has set the watch list for that signal, or it has scanned for it.
pub data Stage : Type 0 where
  queued : Stage
  taken : Stage
  relisted : Stage
  rescanned : Stage

abbrev pub advance : Event → Stage → Stage
advance take_signal queued = taken
advance (reload_list fs) taken = relisted
advance (reload_scan c) relisted = rescanned
advance _ s = s

abbrev pub stage_after : List Event → Stage → Stage
stage_after [] s = s
stage_after (v ∷ vs) s = stage_after vs (advance v s)

abbrev pub is_listed : Place → Bool
is_listed (listed n) = true
is_listed discovered = true
is_listed _ = false

-- The channel and the scan loop are as the stage says.
abbrev pub IsOnWay : Stage → Running → Type 0
IsOnWay queued r = r.exporter.reload_ch ≡ 1
IsOnWay taken r = r.scan_loop ≡ signalled
IsOnWay relisted r = is_listed r.scan_loop ≡ true
IsOnWay rescanned r = Unit

module _ (cfg : Config) where
  happen-IsOnWay :
      (v : Event) (g : Stage) (r s : Running)
      → happen cfg v r ≡ some s
      → IsOnWay g r
      → IsOnWay (advance v g) s
  unfolding happen set_list set_count trigger_reload
  happen-IsOnWay (first_scan c) g r s h p = ground (arith, scan_all-channel cfg c r.exporter)
  happen-IsOnWay (scan_tick c) g r s h p = ground (arith, scan_all-channel cfg c r.exporter)
  happen-IsOnWay take_signal g r s h p = ground arith
  happen-IsOnWay (reload_list fs) g r s h p = ground arith
  happen-IsOnWay reload_count g r s h p = ground arith
  happen-IsOnWay (reload_scan c) g r s h p = ground (arith, scan_all-channel cfg c r.exporter)
  happen-IsOnWay discovery_start g r s h p = ground arith
  happen-IsOnWay (tick_list fs) g r s h p = ground arith
  happen-IsOnWay tick_count g r s h p = ground arith
  happen-IsOnWay tick_signal g r s h p = ground arith
  happen-IsOnWay request g r s h p = ground arith
  happen-IsOnWay stop g r s h p = ground arith
  happen-IsOnWay scan_return g r s h p = ground arith
  happen-IsOnWay discovery_return g r s h p = ground arith

  run-IsOnWay :
      (vs : List Event) (g : Stage) (r t : Running)
      → run cfg vs r ≡ some t
      → IsOnWay g r
      → IsOnWay (stage_after vs g) t
  run-IsOnWay [] g r t h p = subst (IsOnWay g) (run-end cfg r t h) p
  run-IsOnWay (v ∷ vs) g r t h p =
      let (s, here, rest) = run-step cfg v vs r t h in
      run-IsOnWay vs (advance v g) s t rest (happen-IsOnWay v g r s here p)

  -- The scan loop can go on to the scan for the request.
  abbrev pub CanAnswer : Stage → Running → Type 0
  CanAnswer g r =
      (ws : List Event) × (u : Running) × (run cfg ws r ≡ some u) × (stage_after ws g ≡ rescanned)

  answer_step :
      (v : Event) (g : Stage) (r s : Running)
      → happen cfg v r ≡ some s
      → CanAnswer (advance v g) s
      → CanAnswer g r
  unfolding run
  answer_step v g r s h (ws, u, rest, end) = (v ∷ ws, u, rw (h, run) rest, end)

  answered : (r : Running) → CanAnswer rescanned r
  unfolding run
  answered r = ([], r, refl, refl)

  module _ (fs : FileSystem) (c : Cycle) where
    abbrev set_by : Running → Running
    set_by r = record r {
      exporter = set_list (found cfg fs) r.exporter;
      scan_loop = listed (length (found cfg fs));
    }

    abbrev taken_by : Running → Running
    taken_by r = record r {
      exporter = record r.exporter { reload_ch = r.exporter.reload_ch - 1 };
      scan_loop = signalled;
    }

    answer_discovered : (r : Running) → r.scan_loop ≡ discovered → CanAnswer relisted r
    unfolding happen
    answer_discovered r p =
        answer_step (reload_scan c) relisted r
          (record r { exporter = scan_all cfg c r.exporter; scan_loop = waiting }) (rw p refl)
          (answered _)

    answer_listed : (n : ℕ) (r : Running) → r.scan_loop ≡ listed n → CanAnswer relisted r
    unfolding happen
    answer_listed n r p =
        answer_step reload_count relisted r
          (record r { exporter = set_count n r.exporter; scan_loop = discovered }) (rw p refl)
          (answer_discovered _ refl)

    answer_taken : (r : Running) → r.scan_loop ≡ signalled → CanAnswer taken r
    unfolding happen
    answer_taken r p =
        answer_step (reload_list fs) taken r (set_by r) (rw p refl)
          (answer_listed _ (set_by r) refl)

    answer_waiting :
        (r : Running) → r.scan_loop ≡ waiting → r.exporter.reload_ch ≡ 1 → CanAnswer queued r
    unfolding happen
    answer_waiting r p full =
        answer_step take_signal queued r (taken_by r) (rw (p, full) refl)
          (answer_taken (taken_by r) refl)

    -- The scan for an earlier signal leaves the channel as it is.
    queued_discovered :
        (r : Running) → r.scan_loop ≡ discovered → r.exporter.reload_ch ≡ 1 → CanAnswer queued r
    unfolding happen
    queued_discovered r p full =
        answer_step (reload_scan c) queued r
          (record r { exporter = scan_all cfg c r.exporter; scan_loop = waiting }) (rw p refl)
          (answer_waiting _ refl (scan_all-channel cfg c r.exporter ∙ full))

    queued_listed :
        (n : ℕ) (r : Running)
        → r.scan_loop ≡ listed n
        → r.exporter.reload_ch ≡ 1
        → CanAnswer queued r
    unfolding happen set_count
    queued_listed n r p full =
        answer_step reload_count queued r
          (record r { exporter = set_count n r.exporter; scan_loop = discovered }) (rw p refl)
          (queued_discovered _ refl full)

    answer_queued :
        (m : Place) (r : Running)
        → r.scan_loop ≡ m
        → r.exporter.reload_ch ≡ 1
        → (m ≡ returned) ⊎ CanAnswer queued r
    unfolding happen set_list
    answer_queued starting r p full = inr (
        answer_step (first_scan c) queued r
          (record r { exporter = scan_all cfg c r.exporter; scan_loop = waiting }) (rw p refl)
          (answer_waiting _ refl (scan_all-channel cfg c r.exporter ∙ full)))
    answer_queued waiting r p full = inr (answer_waiting r p full)
    answer_queued signalled r p full = inr (
        answer_step (reload_list fs) queued r (set_by r) (rw p refl)
          (queued_listed _ (set_by r) refl full))
    answer_queued (listed n) r p full = inr (queued_listed n r p full)
    answer_queued discovered r p full = inr (queued_discovered r p full)
    answer_queued returned r p full = inl refl

    answer_relisted :
        (m : Place) (r : Running) → r.scan_loop ≡ m → is_listed m ≡ true → CanAnswer relisted r
    answer_relisted starting r p l = absurd (cc l)
    answer_relisted waiting r p l = absurd (cc l)
    answer_relisted signalled r p l = absurd (cc l)
    answer_relisted (listed n) r p l = answer_listed n r p
    answer_relisted discovered r p l = answer_discovered r p
    answer_relisted returned r p l = absurd (cc l)

    answer_from : (g : Stage) (r : Running) → IsOnWay g r → (r.scan_loop ≡ returned) ⊎ CanAnswer g r
    answer_from queued r p = answer_queued r.scan_loop r refl p
    answer_from taken r p = inr (answer_taken r p)
    answer_from relisted r p = inr (answer_relisted r.scan_loop r refl p)
    answer_from rescanned r p = inr (answered r)

  -- What a reload request leads to, in every run from a state with at most one signal in the channel:
  -- at the end a signal is in the channel and the scan loop has taken none since the request; or it has
  -- taken one since, and is in front of the discovery for it; or it has taken one and has set the watch
  -- list since, and is in front of the scan; or it has taken a signal, set the watch list and scanned
  -- since the request, in this order. And unless the scan loop has returned, the run can go on until
  -- these three steps are done.
  pub request_answered :
      (fs : FileSystem) (c : Cycle) (vs : List Event) (r t : Running)
      → r.exporter.reload_ch ≤ 1
      → run cfg (request ∷ vs) r ≡ some t
      → IsOnWay (stage_after vs queued) t
        × ((t.scan_loop ≡ returned) ⊎ CanAnswer (stage_after vs queued) t)
  unfolding happen trigger_reload
  request_answered fs c vs r t fits h =
      let (s, here, rest) = run-step cfg request vs r t h in
      let way = run-IsOnWay vs queued s t rest (ground arith) in
      (way, answer_from fs c (stage_after vs queued) t way)
