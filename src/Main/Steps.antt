-- ===== src/Main/Steps.antt =====
-- The runs of the process, taken apart at their first event.
use directory_exporter.Common.{
  Bool, true, false, List, [], ◌∷◌, some, ◌≡◌, inl, inr, arith, Option-cases, Bool-cases,
}
use directory_exporter.Config.{Config}
use directory_exporter.Exporter.Loops.{Running, Event, stop, happen}
use directory_exporter.Main.Process.{
  MainPlace, closing, drained, shut, ended, is_allowed, is_ended, is_woken, Process, ProcessEvent,
  loop_event, main_stops, move, proceed, process,
}

abbrev pub is_past_shut : MainPlace → Bool
is_past_shut shut = true
is_past_shut ended = true
is_past_shut _ = false

abbrev pub is_past_wait : MainPlace → Bool
is_past_wait drained = true
is_past_wait m = is_past_shut m

abbrev pub is_past_stop : MainPlace → Bool
is_past_stop closing = true
is_past_stop m = is_past_wait m

module _ (cfg : Config) where
  pub process-step :
      (v : ProcessEvent) (vs : List ProcessEvent) (p t : Process)
      → process cfg (v ∷ vs) p ≡ some t
      → (q : Process) × (move cfg v p ≡ some q) × (process cfg vs q ≡ some t)
  unfolding process proceed
  process-step v vs p t h = elim (Bool-cases (is_ended p.place)) [
    | inl over ↦ absurd (ground arith)
    | inr on ↦ elim (Option-cases (move cfg v p)) [
      | inl e ↦ absurd (ground arith)
      | inr (q, e) ↦ (q, e, ground arith)
    ]
  ]

  pub process_over : (p t : Process) → process cfg [] p ≡ some t → p ≡ t
  unfolding process
  process_over p t h = ground arith

  -- A step of the loops.
  pub loop_step :
      (v : Event) (p q : Process)
      → move cfg (loop_event v) p ≡ some q
      → (r : Running) × (is_allowed v p.http ≡ true)
        × (happen cfg v p.running ≡ some r)
        × (record p { running = r } ≡ q)
  unfolding move
  loop_step v p q h = elim (Bool-cases (is_allowed v p.http)) [
    | inr forbidden ↦ absurd (ground arith)
    | inl allowed ↦ elim (Option-cases (happen cfg v p.running)) [
      | inl e ↦ absurd (ground arith)
      | inr (r, e) ↦ (r, allowed, e, ground arith)
    ]
  ]

  -- The call of `Stop`.
  pub stop_step :
      (p q : Process)
      → move cfg main_stops p ≡ some q
      → (is_woken p.place ≡ true)
        × (happen cfg stop p.running ≡ some (record p.running { stopped = true }))
        × (record p { running = record p.running { stopped = true }; place = closing } ≡ q)
  unfolding move happen
  stop_step p q h = elim (Bool-cases (is_woken p.place)) [
    | inr other ↦ absurd (ground arith)
    | inl found ↦ elim (Bool-cases p.running.stopped) [
      | inl e ↦ absurd (ground arith)
      | inr e ↦ (found, ground arith, ground arith)
    ]
  ]
