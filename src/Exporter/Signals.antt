-- ===== src/Exporter/Signals.antt =====
-- The reload channel in every run.
use directory_exporter.Common.{
  ℕ, ◌+◌, ◌≤◌, Bool, true, false, List, [], ◌∷◌, some, if◌then◌else◌, ◌≡◌, inl, inr, arith, refl,
  subst, Option-cases,
}
use directory_exporter.Go.Os.{FileSystem}
use directory_exporter.Config.{Config}
use directory_exporter.Exporter.{
  Exporter, Cycle, new_exporter, trigger_reload, set_list, set_count, discover, scan_all,
}
use directory_exporter.Exporter.Loops.{
  Running, Event, first_scan, scan_tick, take_signal, reload_list, reload_count, reload_scan,
  discovery_start, tick_list, tick_count, tick_signal, request, stop, scan_return, discovery_return,
  happen, run, launch,
}

abbrev pub is_taken : Event → Bool
is_taken take_signal = true
is_taken _ = false

abbrev pub is_sent : Event → Bool
is_sent tick_signal = true
is_sent request = true
is_sent _ = false

abbrev pub taken_count : List Event → ℕ
taken_count [] = 0
taken_count (v ∷ vs) = (if is_taken v then 1 else 0) + taken_count vs

abbrev pub sent_count : List Event → ℕ
sent_count [] = 0
sent_count (v ∷ vs) = (if is_sent v then 1 else 0) + sent_count vs

-- How an event that takes `taken` signals and sends `sent` changes the channel.
record Signalled (taken sent : Bool) (e f : Exporter) : Type 0 where
  fits : e.reload_ch ≤ 1 → f.reload_ch ≤ 1
  balance : f.reload_ch + (if taken then 1 else 0) ≤ e.reload_ch + (if sent then 1 else 0)

module _ (cfg : Config) where
  pub scan_all-channel : (c : Cycle) (e : Exporter) → (scan_all cfg c e).reload_ch ≡ e.reload_ch
  unfolding scan_all
  scan_all-channel c e = ground arith

  discover-channel :
      (fs : FileSystem) (e : Exporter) → (discover cfg fs e).0.reload_ch ≡ e.reload_ch
  unfolding discover set_list set_count
  discover-channel fs e = refl

  unchanged : (e f : Exporter) → f.reload_ch ≡ e.reload_ch → Signalled false false e f
  unchanged e f p = record { fits = λ h. omega arith; balance = omega arith }

  scan_all-Signalled : (c : Cycle) (e : Exporter) → Signalled false false e (scan_all cfg c e)
  scan_all-Signalled c e = unchanged e (scan_all cfg c e) (scan_all-channel c e)

  happen-Signalled :
      (v : Event) (r s : Running)
      → happen cfg v r ≡ some s
      → Signalled (is_taken v) (is_sent v) r.exporter s.exporter
  unfolding happen set_list set_count trigger_reload
  happen-Signalled (first_scan c) r s h =
      subst (Signalled false false r.exporter) (ground arith) (scan_all-Signalled c r.exporter)
  happen-Signalled (scan_tick c) r s h =
      subst (Signalled false false r.exporter) (ground arith) (scan_all-Signalled c r.exporter)
  happen-Signalled take_signal r s h = ground arith
  happen-Signalled (reload_list fs) r s h = unchanged _ _ (ground arith)
  happen-Signalled reload_count r s h = unchanged _ _ (ground arith)
  happen-Signalled (reload_scan c) r s h =
      subst (Signalled false false r.exporter) (ground arith) (scan_all-Signalled c r.exporter)
  happen-Signalled discovery_start r s h = unchanged _ _ (ground arith)
  happen-Signalled (tick_list fs) r s h = unchanged _ _ (ground arith)
  happen-Signalled tick_count r s h = unchanged _ _ (ground arith)
  happen-Signalled tick_signal r s h = ground arith
  happen-Signalled request r s h = ground arith
  happen-Signalled stop r s h = unchanged _ _ (ground arith)
  happen-Signalled scan_return r s h = unchanged _ _ (ground arith)
  happen-Signalled discovery_return r s h = unchanged _ _ (ground arith)

  pub run-step :
      (v : Event) (vs : List Event) (r t : Running)
      → run cfg (v ∷ vs) r ≡ some t
      → (s : Running) × (happen cfg v r ≡ some s) × (run cfg vs s ≡ some t)
  unfolding run
  run-step v vs r t h = elim (Option-cases (happen cfg v r)) [
    | inl p ↦ absurd (ground arith)
    | inr (s, p) ↦ (s, p, ground arith)
  ]

  pub run-end : (r t : Running) → run cfg [] r ≡ some t → r ≡ t
  unfolding run
  run-end r t h = ground arith

  run-balance :
      (vs : List Event) (r t : Running)
      → run cfg vs r ≡ some t
      → r.exporter.reload_ch ≤ 1
      → (t.exporter.reload_ch ≤ 1)
        × (t.exporter.reload_ch + taken_count vs ≤ r.exporter.reload_ch + sent_count vs)
  run-balance [] r t h p =
      subst
        (λ x. (x.exporter.reload_ch ≤ 1) × (x.exporter.reload_ch + 0 ≤ r.exporter.reload_ch + 0))
        (run-end r t h) (p, omega arith)
  run-balance (v ∷ vs) r t h p =
      let (s, here, rest) = run-step v vs r t h in
      let step = happen-Signalled v r s here in
      let (fits, balance) = run-balance vs s t rest (step.fits p) in
      (fits, omega (arith, balance, step.balance))

  -- In every run from the start the channel holds at most one signal, and the signals that the scan
  -- loop has taken and the one that is left are no more than the requests and the ticks of the
  -- discovery loop.
  run-launch :
      (vs : List Event) (fs : FileSystem) (t : Running)
      → run cfg vs (launch cfg fs) ≡ some t
      → (t.exporter.reload_ch ≤ 1) × (t.exporter.reload_ch + taken_count vs ≤ sent_count vs)
  unfolding launch
  run-launch vs fs t h =
      let p = discover-channel fs new_exporter in
      let (fits, balance) = run-balance vs _ t h (omega (arith, p)) in
      (fits, omega (arith, balance, p))
