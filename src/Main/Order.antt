-- ===== src/Main/Order.antt =====
-- The order in which the process ends.
use directory_exporter.Common.{◌||◌, Bool, true, false, List, [], ◌∷◌, some, ◌≡◌, arith, subst}
use directory_exporter.Go.Os.{FileSystem}
use directory_exporter.Config.{Config}
use directory_exporter.Exporter.Loops.{Event, launch, wait_count}
use directory_exporter.Exporter.Places.{
  is_stop, HasBegun, HasReturned, happen-stopped, happen-HasBegun, happen-HasReturned,
}
use directory_exporter.Exporter.Shutdown.{stop_waits}
use directory_exporter.Main.{start}
use directory_exporter.Main.Process.{
  ended, is_allowed, is_blocked, is_failed, HttpPlace, Process, ProcessEvent, loop_event,
  server_listens, server_fails, server_finishes, signal, main_wakes, main_stops, main_waits,
  main_shuts, main_ends, move, process, begin,
}
use directory_exporter.Main.Steps.{
  is_past_stop, is_past_wait, is_past_shut, process-step, process_over, loop_step, stop_step,
}

abbrev pub is_signal : ProcessEvent → Bool
is_signal signal = true
is_signal _ = false

abbrev pub has_signal : List ProcessEvent → Bool
has_signal [] = false
has_signal (v ∷ vs) = is_signal v || has_signal vs

-- `main` has gone on only behind the end of `ctx`, which a signal or the failed server has ended; it
-- has closed `stopCh` if it is behind that, and the server is shut down if it is behind that.
record InOrder (signalled : Bool) (p : Process) : Type 0 where
  wakes : is_blocked p.place ≡ false → p.done ≡ true
  cause : p.done ≡ (signalled || is_failed p.http)
  stops : p.running.stopped ≡ is_past_stop p.place
  shuts : p.server_shut ≡ is_past_shut p.place

-- Behind `Stop`: both loops have begun, and where the wait is over they have returned.
record Waited (p : Process) : Type 0 where
  begun : HasBegun p.running
  waited : is_past_wait p.place ≡ true → HasReturned p.running

allowed_stop : (v : Event) (h : HttpPlace) → is_allowed v h ≡ true → is_stop v ≡ false
allowed_stop v h a = ground arith

module _ (cfg : Config) where
  move-InOrder :
      (v : ProcessEvent) (b : Bool) (p q : Process)
      → InOrder b p
      → move cfg v p ≡ some q
      → InOrder (b || is_signal v) q
  unfolding move
  move-InOrder (loop_event v) b p q i h =
      let (r, a, here, same) = loop_step cfg v p q h in
      let still = happen-stopped cfg v p.running r (allowed_stop v p.http a) here in
      subst (InOrder (b || false)) same (ground arith)
  move-InOrder server_listens b p q i h = ground arith
  move-InOrder (server_fails e) b p q i h = ground arith
  move-InOrder server_finishes b p q i h = ground arith
  move-InOrder signal b p q i h = ground arith
  move-InOrder main_wakes b p q i h = ground arith
  move-InOrder main_stops b p q i h =
      let (woken, here, same) = stop_step cfg p q h in
      subst (InOrder (b || false)) same (ground arith)
  move-InOrder main_waits b p q i h = ground arith
  move-InOrder main_shuts b p q i h = ground arith
  move-InOrder main_ends b p q i h = ground arith

  run-InOrder :
      (vs : List ProcessEvent) (b : Bool) (p t : Process)
      → InOrder b p
      → process cfg vs p ≡ some t
      → InOrder (b || has_signal vs) t
  run-InOrder [] b p t i h = subst (InOrder (b || false)) (process_over cfg p t h) (ground arith)
  run-InOrder (v ∷ vs) b p t i h =
      let (q, here, rest) = process-step cfg v vs p t h in
      ground (arith, run-InOrder vs (b || is_signal v) q t (move-InOrder v b p q i here) rest)

  move-Waited : (v : ProcessEvent) (p q : Process) → Waited p → move cfg v p ≡ some q → Waited q
  unfolding move
  move-Waited (loop_event v) p q w h =
      let (r, a, here, same) = loop_step cfg v p q h in
      subst Waited same (record {
        begun = happen-HasBegun cfg v p.running r w.begun here;
        waited = λ d. happen-HasReturned cfg v p.running r (w.waited d) here;
      })
  move-Waited server_listens p q w h = ground arith
  move-Waited (server_fails e) p q w h = ground arith
  move-Waited server_finishes p q w h = ground arith
  move-Waited signal p q w h = ground arith
  move-Waited main_wakes p q w h = ground arith
  move-Waited main_stops p q w h = let (woken, here, same) = stop_step cfg p q h in ground arith
  move-Waited main_waits p q w h =
      let group : wait_count p.running ≡ 0 = ground arith in
      let over = stop_waits cfg p.running w.begun group in ground (arith, over)
  move-Waited main_shuts p q w h = ground arith
  move-Waited main_ends p q w h = ground arith

  run-Waited :
      (vs : List ProcessEvent) (p t : Process) → Waited p → process cfg vs p ≡ some t → Waited t
  run-Waited [] p t w h = subst Waited (process_over cfg p t h) w
  run-Waited (v ∷ vs) p t w h =
      let (q, here, rest) = process-step cfg v vs p t h in
      run-Waited vs q t (move-Waited v p q w here) rest

  pub move-past_stop :
      (v : ProcessEvent) (p q : Process)
      → is_past_stop p.place ≡ true
      → move cfg v p ≡ some q
      → is_past_stop q.place ≡ true
  unfolding move
  move-past_stop (loop_event v) p q b h =
      let (r, a, here, same) = loop_step cfg v p q h in
      subst (λ x. is_past_stop x.place ≡ true) same b
  move-past_stop server_listens p q b h = ground arith
  move-past_stop (server_fails e) p q b h = ground arith
  move-past_stop server_finishes p q b h = ground arith
  move-past_stop signal p q b h = ground arith
  move-past_stop main_wakes p q b h = ground arith
  move-past_stop main_stops p q b h = ground arith
  move-past_stop main_waits p q b h = ground arith
  move-past_stop main_shuts p q b h = ground arith
  move-past_stop main_ends p q b h = ground arith

  pub run-past_stop :
      (vs : List ProcessEvent) (p t : Process)
      → is_past_stop p.place ≡ true
      → process cfg vs p ≡ some t
      → is_past_stop t.place ≡ true
  run-past_stop [] p t b h = subst (λ x. is_past_stop x.place ≡ true) (process_over cfg p t h) b
  run-past_stop (v ∷ vs) p t b h =
      let (q, here, rest) = process-step cfg v vs p t h in
      run-past_stop vs q t (move-past_stop v p q b here) rest

  -- How the process ends, in every run from its start to the call of `Stop` and on from there: a signal
  -- has come before or the server has failed, `stopCh` stays closed, the server is shut down only when
  -- both loops have returned, if both had begun when `Stop` was called, and `main` ends only when the
  -- server is shut down.
  pub process-ordered :
      (fs : FileSystem) (vs ws : List ProcessEvent) (p t : Process)
      → process cfg vs (begin (start fs cfg)) ≡ some p
      → process cfg (main_stops ∷ ws) p ≡ some t
      → ((has_signal vs || is_failed p.http) ≡ true)
        × (t.running.stopped ≡ true)
        × (HasBegun p.running → t.server_shut ≡ true → HasReturned t.running)
        × (t.place ≡ ended → t.server_shut ≡ true)
  unfolding begin start launch
  process-ordered fs vs ws p t before behind =
      let first : InOrder false (begin (start fs cfg)) = ground arith in
      let i = run-InOrder vs false (begin (start fs cfg)) p first before in
      let (q, here, rest) = process-step cfg main_stops ws p t behind in
      let (woken, called, same) = stop_step cfg p q here in
      let j =
        run-InOrder ws (has_signal vs || false) q t
          (move-InOrder main_stops (has_signal vs) p q i here) rest in
      let past = run-past_stop ws q t (ground arith) rest in
      let start_of_wait : HasBegun p.running → Waited q = λ b. ground arith in
      (
        ground arith,
        ground arith,
        λ b d. (run-Waited ws q t (start_of_wait b) rest).waited (ground arith),
        λ e. ground arith,
      )
