-- ===== src/Main/Ends.antt =====
-- The end of the process behind the call of `Stop`.
use directory_exporter.Common.{
  Option-cases, ◌+◌, ◌≤◌, ℕ, ◌≢◌, none, ◌⊎◌, inl, inr, All, Bool, true, false, List, [], ◌∷◌, some,
  ◌≡◌, arith, subst, if◌then◌else◌, refl,
}
use directory_exporter.Go.Os.{FileSystem}
use directory_exporter.Config.{Config}
use directory_exporter.Exporter.{Cycle}
use directory_exporter.Exporter.Loops.{Event, launch, wait_count, happen, is_signalled}
use directory_exporter.Exporter.Shutdown.{
  all_steps_left, is_loop_step, takes_other, happen-steps_left, happen-discovery_place, all-CanStep,
  steps_left-bound,
}
use directory_exporter.Main.{start}
use directory_exporter.Main.Process.{
  MainPlace, blocked, woken, closing, drained, shut, ended, is_ended, is_allowed, HttpPlace,
  Process, ProcessEvent, loop_event, server_listens, server_fails, server_finishes, signal,
  main_wakes, main_stops, main_waits, main_shuts, main_ends, move, proceed, process, begin,
}
use directory_exporter.Main.Steps.{is_past_stop, process-step, process_over, loop_step, stop_step}

-- The steps of `main` behind `close(stopCh)`.
abbrev pub main_left : MainPlace → ℕ
main_left closing = 3
main_left drained = 2
main_left shut = 1
main_left _ = 0

abbrev pub all_left : Process → ℕ
all_left p = main_left p.place + all_steps_left p.running

-- The events of `main` and of the loops.
abbrev pub is_counted : ProcessEvent → Bool
is_counted (loop_event v) = is_loop_step v
is_counted main_wakes = true
is_counted main_stops = true
is_counted main_waits = true
is_counted main_shuts = true
is_counted main_ends = true
is_counted _ = false

abbrev pub counted : List ProcessEvent → ℕ
counted [] = 0
counted (v ∷ vs) = (if is_counted v then 1 else 0) + counted vs

-- No `select` takes another case than that of `stopCh`.
abbrev pub takes_other_case : ProcessEvent → Bool
takes_other_case (loop_event v) = takes_other v
takes_other_case _ = false

abbrev pub IsPromptStep : ProcessEvent → Type 0
IsPromptStep v = takes_other_case v ≡ false

-- What holds behind the call of `Stop`.
record Stopping (p : Process) : Type 0 where
  past : is_past_stop p.place ≡ true
  stopped : p.running.stopped ≡ true
  place : is_signalled p.running.discovery_loop ≡ false

loop_allowed : (v : Event) (h : HttpPlace) → is_loop_step v ≡ true → is_allowed v h ≡ true
loop_allowed v h s = ground arith

module _ (cfg : Config) where
  -- `main` or a loop can make a step.
  abbrev pub CanProceed : Process → Type 0
  CanProceed p =
      (v : ProcessEvent) × IsPromptStep v × (is_counted v ≡ true) × (proceed cfg v p ≢ none)

  move-all_left :
      (v : ProcessEvent) (p q : Process)
      → Stopping p
      → IsPromptStep v
      → move cfg v p ≡ some q
      → Stopping q × (all_left q + (if is_counted v then 1 else 0) ≡ all_left p)
  unfolding move
  move-all_left (loop_event v) p q w o h =
      let (r, a, here, same) = loop_step cfg v p q h in
      let (still, one) = happen-steps_left cfg v p.running r w.stopped o here in
      let place = happen-discovery_place cfg v p.running r w.place here in
      subst (λ x. Stopping x × (all_left x + (if is_loop_step v then 1 else 0) ≡ all_left p)) same
        (record { past = w.past; stopped = still; place = place }, omega (arith, one))
  move-all_left server_listens p q w o h = ground arith
  move-all_left (server_fails e) p q w o h = ground arith
  move-all_left server_finishes p q w o h = ground arith
  move-all_left signal p q w o h = ground arith
  move-all_left main_wakes p q w o h = ground arith
  move-all_left main_stops p q w o h =
      let (found, called, same) = stop_step cfg p q h in absurd (ground arith)
  move-all_left main_waits p q w o h = ground arith
  move-all_left main_shuts p q w o h = ground arith
  move-all_left main_ends p q w o h = ground arith

  run-all_left :
      (vs : List ProcessEvent) (p t : Process)
      → Stopping p
      → All IsPromptStep vs
      → process cfg vs p ≡ some t
      → Stopping t × (all_left t + counted vs ≡ all_left p)
  run-all_left [] p t w os h =
      subst (λ x. Stopping x × (all_left x + 0 ≡ all_left p)) (process_over cfg p t h)
        (w, omega arith)
  run-all_left (v ∷ vs) p t w (o, os) h =
      let (q, here, rest) = process-step cfg v vs p t h in
      let (w', one) = move-all_left v p q w o here in
      let (x, more) = run-all_left vs q t w' os rest in (x, omega (arith, one, more))

  move-loop_place :
      (v : ProcessEvent) (p q : Process)
      → is_signalled p.running.discovery_loop ≡ false
      → move cfg v p ≡ some q
      → is_signalled q.running.discovery_loop ≡ false
  unfolding move
  move-loop_place (loop_event v) p q b h =
      let (r, a, here, same) = loop_step cfg v p q h in
      subst (λ x. is_signalled x.running.discovery_loop ≡ false) same
        (happen-discovery_place cfg v p.running r b here)
  move-loop_place server_listens p q b h = ground arith
  move-loop_place (server_fails e) p q b h = ground arith
  move-loop_place server_finishes p q b h = ground arith
  move-loop_place signal p q b h = ground arith
  move-loop_place main_wakes p q b h = ground arith
  move-loop_place main_stops p q b h =
      let (found, called, same) = stop_step cfg p q h in ground arith
  move-loop_place main_waits p q b h = ground arith
  move-loop_place main_shuts p q b h = ground arith
  move-loop_place main_ends p q b h = ground arith

  run-loop_place :
      (vs : List ProcessEvent) (p t : Process)
      → is_signalled p.running.discovery_loop ≡ false
      → process cfg vs p ≡ some t
      → is_signalled t.running.discovery_loop ≡ false
  run-loop_place [] p t b h =
      subst (λ x. is_signalled x.running.discovery_loop ≡ false) (process_over cfg p t h) b
  run-loop_place (v ∷ vs) p t b h =
      let (q, here, rest) = process-step cfg v vs p t h in
      run-loop_place vs q t (move-loop_place v p q b here) rest

  loop_proceeds :
      (v : Event) (p : Process)
      → is_ended p.place ≡ false
      → is_allowed v p.http ≡ true
      → happen cfg v p.running ≢ none
      → proceed cfg (loop_event v) p ≢ none
  unfolding proceed move
  loop_proceeds v p on a can = elim (Option-cases (happen cfg v p.running)) [
    | inl e ↦ absurd (can e)
    | inr (r, e) ↦ λ n. ground arith
  ]

  all-CanProceed :
      (fs : FileSystem) (c : Cycle) (p : Process) (m : MainPlace)
      → Stopping p
      → p.place ≡ m
      → (m ≡ ended) ⊎ CanProceed p
  unfolding proceed move wait_count
  all-CanProceed fs c p blocked w e = absurd (ground arith)
  all-CanProceed fs c p woken w e = absurd (ground arith)
  all-CanProceed fs c p closing w e = elim (all-CanStep cfg fs c p.running w.stopped w.place) [
    | inl (a, b) ↦ inr (main_waits, refl, refl, ground arith)
    | inr (v, o, s, can) ↦
        let allowed = loop_allowed v p.http s in
        inr (loop_event v, o, s, loop_proceeds v p (ground arith) allowed can)
  ]
  all-CanProceed fs c p drained w e = inr (main_shuts, refl, refl, ground arith)
  all-CanProceed fs c p shut w e = inr (main_ends, refl, refl, ground arith)
  all-CanProceed fs c p ended w e = inl refl

  -- The process ends. In every run from its start to the call of `Stop` and on from there, in which each
  -- `select` behind it takes the case of `stopCh`, `main` and the loops make at most ten more steps
  -- together, and as long as `main` has not ended, it or a loop can make such a step.
  pub process_terminates :
      (fs : FileSystem) (c : Cycle) (vs ws : List ProcessEvent) (p t : Process)
      → process cfg vs (begin (start fs cfg)) ≡ some p
      → process cfg (main_stops ∷ ws) p ≡ some t
      → All IsPromptStep ws
      → (counted ws ≤ 10) × ((t.place ≡ ended) ⊎ CanProceed t)
  unfolding begin start launch
  process_terminates fs c vs ws p t before behind prompt =
      let first : is_signalled (begin (start fs cfg)).running.discovery_loop ≡ false = refl in
      let place = run-loop_place vs (begin (start fs cfg)) p first before in
      let (q, here, rest) = process-step cfg main_stops ws p t behind in
      let (found, called, same) = stop_step cfg p q here in
      let w : Stopping q = ground arith in
      let (x, left) = run-all_left ws q t w prompt rest in
      let bound = steps_left-bound cfg q.running w.place in
      let closing_left : main_left q.place ≤ 3 = ground arith in
      (omega (arith, left, bound, closing_left), all-CanProceed fs c t t.place x refl)
