-- ===== src/Main/Inner.antt =====
-- The loops in a run of the process.
use directory_exporter.Common.{List, [], ◌∷◌, ◌++◌, some, ◌≡◌, ◌∙◌, refl, ap, arith}
use directory_exporter.Config.{Config}
use directory_exporter.Exporter.Loops.{Running, Event, stop, happen, run}
use directory_exporter.Exporter.Signals.{run-step, run-end}
use directory_exporter.Main.Process.{
  Process, ProcessEvent, loop_event, server_listens, server_fails, server_finishes, signal,
  main_wakes, main_stops, main_waits, main_shuts, main_ends, move, process,
}
use directory_exporter.Main.Steps.{process-step, process_over, loop_step, stop_step}

-- The event of the loops and of `Stop` that an event of the process is, if any.
abbrev pub inner_event : ProcessEvent → List Event
inner_event (loop_event v) = v ∷ []
inner_event main_stops = stop ∷ []
inner_event _ = []

abbrev pub inner_events : List ProcessEvent → List Event
inner_events [] = []
inner_events (v ∷ vs) = inner_event v ++ inner_events vs

module _ (cfg : Config) where
  run_one : (v : Event) (r s : Running) → happen cfg v r ≡ some s → run cfg (v ∷ []) r ≡ some s
  unfolding run
  run_one v r s h = rw (h, run) refl

  run-append :
      (us vs : List Event) (r s : Running)
      → run cfg us r ≡ some s
      → run cfg (us ++ vs) r ≡ run cfg vs s
  unfolding run
  run-append [] vs r s h = ap (run cfg vs) (run-end cfg r s h)
  run-append (u ∷ us) vs r s h =
      let (q, here, rest) = run-step cfg u us r s h in rw (here, run) (run-append us vs q s rest)

  move-run :
      (v : ProcessEvent) (p q : Process)
      → move cfg v p ≡ some q
      → run cfg (inner_event v) p.running ≡ some q.running
  unfolding move run
  move-run (loop_event v) p q h =
      let (r, a, here, same) = loop_step cfg v p q h in
      run_one v p.running r here ∙ ap (λ x. some x.running) same
  move-run main_stops p q h =
      let (found, here, same) = stop_step cfg p q h in
      run_one stop p.running _ here ∙ ap (λ x. some x.running) same
  move-run server_listens p q h = ground arith
  move-run (server_fails e) p q h = ground arith
  move-run server_finishes p q h = ground arith
  move-run signal p q h = ground arith
  move-run main_wakes p q h = ground arith
  move-run main_waits p q h = ground arith
  move-run main_shuts p q h = ground arith
  move-run main_ends p q h = ground arith

  pub process-run :
      (vs : List ProcessEvent) (p t : Process)
      → process cfg vs p ≡ some t
      → run cfg (inner_events vs) p.running ≡ some t.running
  unfolding run
  process-run [] p t h = ap (λ x. some x.running) (process_over cfg p t h)
  process-run (v ∷ vs) p t h =
      let (q, here, rest) = process-step cfg v vs p t h in
      run-append (inner_event v) (inner_events vs) p.running q.running (move-run v p q here)
      ∙ process-run vs q t rest
