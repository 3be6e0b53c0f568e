-- ===== src/Exporter/Size.antt =====
-- The reported size of the watch list, where the two loops are never inside `Discover` at once.
use directory_exporter.Common.{
  ℕ, ℤ, ◌⊎◌, inl, inr, Bool, true, false, not, ◌&&◌, List, [], ◌∷◌, none, some, length, ◌≡◌, arith,
  refl, subst,
}
use directory_exporter.Go.Os.{FileSystem}
use directory_exporter.Config.{Config}
use directory_exporter.Cache.{incr_reload, to_int32, set_watched_total, set_batch}
use directory_exporter.Exporter.{
  Exporter, Cycle, trigger_reload, set_list, set_count, discover, scan_all,
}
use directory_exporter.Exporter.Loops.{
  Place, starting, waiting, signalled, listed, discovered, returned, Running, Event, first_scan,
  scan_tick, take_signal, reload_list, reload_count, reload_scan, discovery_start, tick_list,
  tick_count, tick_signal, request, stop, scan_return, discovery_return, to_count, happen, run,
  launch,
}
use directory_exporter.Exporter.Signals.{run-step, run-end}

abbrev pub is_listed : Place → Bool
is_listed (listed n) = true
is_listed _ = false

-- Not both loops are between the two steps of `Discover`.
abbrev pub apart : Running → Bool
apart r = not (is_listed r.scan_loop && is_listed r.discovery_loop)

module _ (cfg : Config) where
  -- Whether this holds in every state of a run.
  unfoldable pub stays_apart : List Event → Running → Bool
  stays_apart [] r = apart r
  stays_apart (v ∷ vs) r =
      apart r && elim (happen cfg v r) [ none ↦ true | some s ↦ stays_apart vs s ]

  stays_apart-head : (vs : List Event) (r : Running) → stays_apart vs r ≡ true → apart r ≡ true
  unfolding stays_apart
  stays_apart-head [] r h = h
  stays_apart-head (v ∷ vs) r h = ground arith

  scan_all-list : (c : Cycle) (e : Exporter) → (scan_all cfg c e).watch_list ≡ e.watch_list
  unfolding scan_all
  scan_all-list c e = ground arith

  scan_all-watched_total :
      (c : Cycle) (e : Exporter) → (scan_all cfg c e).cache.watched_total ≡ e.cache.watched_total
  unfolding scan_all set_batch
  scan_all-watched_total c e = ground arith

-- The conversion, as a function that does not compute.
int32 : ℕ → ℤ
int32 n = to_int32 n

int32_lem : (n : ℕ) → int32 n ≡ to_int32 n
unfolding int32
int32_lem n = refl

set_count-total : (n : ℕ) (e : Exporter) → (set_count n e).cache.watched_total ≡ int32 n
unfolding set_count set_watched_total int32
set_count-total n e = refl

set_count-list : (n : ℕ) (e : Exporter) → (set_count n e).watch_list ≡ e.watch_list
unfolding set_count
set_count-list n e = refl

-- The size that the loop inside `Discover` is about to report, else the one that is reported.
abbrev next_size : Place → Place → ℤ → ℤ
next_size (listed n) q total = int32 n
next_size starting (listed n) total = int32 n
next_size waiting (listed n) total = int32 n
next_size signalled (listed n) total = int32 n
next_size discovered (listed n) total = int32 n
next_size returned (listed n) total = int32 n
next_size _ _ total = total

abbrev Fits : Running → Type 0
Fits r =
    next_size r.scan_loop r.discovery_loop r.exporter.cache.watched_total
    ≡ int32 (length r.exporter.watch_list)

counted : (p : Place) → (to_count p ≡ none) ⊎ ((n : ℕ) × (p ≡ listed n))
counted (listed n) = inr (n, refl)
counted starting = inl refl
counted waiting = inl refl
counted signalled = inl refl
counted discovered = inl refl
counted returned = inl refl

idle_size :
    (r : Running)
    → is_listed r.scan_loop ≡ false
    → is_listed r.discovery_loop ≡ false
    → Fits r
    → r.exporter.cache.watched_total ≡ to_int32 (length r.exporter.watch_list)
idle_size r p q f = ground (arith, int32_lem (length r.exporter.watch_list))

launch-Fits : (cfg : Config) (fs : FileSystem) → Fits (launch cfg fs)
unfolding launch discover int32 set_list set_count set_watched_total
launch-Fits cfg fs = refl

module _ (cfg : Config) where
  happen-Fits :
      (v : Event) (r s : Running)
      → happen cfg v r ≡ some s
      → apart r ≡ true
      → apart s ≡ true
      → Fits r
      → Fits s
  unfolding happen set_list trigger_reload incr_reload
  happen-Fits (first_scan c) r s h a a' f =
      ground (arith, scan_all-list cfg c r.exporter, scan_all-watched_total cfg c r.exporter)
  happen-Fits (scan_tick c) r s h a a' f =
      ground (arith, scan_all-list cfg c r.exporter, scan_all-watched_total cfg c r.exporter)
  happen-Fits (reload_scan c) r s h a a' f =
      ground (arith, scan_all-list cfg c r.exporter, scan_all-watched_total cfg c r.exporter)
  happen-Fits take_signal r s h a a' f = ground arith
  happen-Fits (reload_list fs) r s h a a' f = ground arith
  happen-Fits reload_count r s h a a' f = elim (counted r.scan_loop) [
    | inl p ↦ absurd (ground arith)
    | inr (n, p) ↦ ground (arith, set_count-total n r.exporter, set_count-list n r.exporter)
  ]
  happen-Fits discovery_start r s h a a' f = ground arith
  happen-Fits (tick_list fs) r s h a a' f = ground arith
  happen-Fits tick_count r s h a a' f = elim (counted r.discovery_loop) [
    | inl p ↦ absurd (ground arith)
    | inr (n, p) ↦ ground (arith, set_count-total n r.exporter, set_count-list n r.exporter)
  ]
  happen-Fits tick_signal r s h a a' f = ground arith
  happen-Fits request r s h a a' f = ground arith
  happen-Fits stop r s h a a' f = ground arith
  happen-Fits scan_return r s h a a' f = ground arith
  happen-Fits discovery_return r s h a a' f = ground arith

  run-Fits :
      (vs : List Event) (r t : Running)
      → run cfg vs r ≡ some t
      → stays_apart cfg vs r ≡ true
      → Fits r
      → Fits t
  unfolding stays_apart
  run-Fits [] r t h a f = subst Fits (run-end cfg r t h) f
  run-Fits (v ∷ vs) r t h a f =
      let (s, here, rest) = run-step cfg v vs r t h in
      let later : stays_apart cfg vs s ≡ true = ground arith in
      run-Fits vs s t rest later
        (happen-Fits v r s here (ground arith) (stays_apart-head cfg vs s later) f)

  -- In every run from the start in which the two loops are never both between the two steps of
  -- `Discover`, the reported size is that of the watch list, as an `int32`, whenever no loop is
  -- between these steps.
  pub run-size :
      (fs : FileSystem) (vs : List Event) (t : Running)
      → run cfg vs (launch cfg fs) ≡ some t
      → stays_apart cfg vs (launch cfg fs) ≡ true
      → is_listed t.scan_loop ≡ false
      → is_listed t.discovery_loop ≡ false
      → t.exporter.cache.watched_total ≡ to_int32 (length t.exporter.watch_list)
  run-size fs vs t h a p q =
      let f = run-Fits vs (launch cfg fs) t h a (launch-Fits cfg fs) in idle_size t p q f
