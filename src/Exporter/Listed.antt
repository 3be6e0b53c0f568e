-- ===== src/Exporter/Listed.antt =====
-- The watch list in every run.
use directory_exporter.Common.{List, [], ◌∷◌, some, ◌≡◌, arith, subst, refl}
use directory_exporter.Go.Os.{FileSystem}
use directory_exporter.Config.{Config}
use directory_exporter.Exporter.{Exporter, Cycle, scan_all, set_list, set_count, trigger_reload}
use directory_exporter.Exporter.Loops.{
  Running, Event, first_scan, scan_tick, take_signal, reload_list, reload_count, reload_scan,
  discovery_start, tick_list, tick_count, tick_signal, request, stop, scan_return, discovery_return,
  happen, run, found,
}
use directory_exporter.Exporter.Signals.{run-step, run-end}

-- The file system that the watch list was last searched in, where `fs` is the first.
abbrev pub last_searched : FileSystem → List Event → FileSystem
last_searched fs [] = fs
last_searched fs (reload_list g ∷ vs) = last_searched g vs
last_searched fs (tick_list g ∷ vs) = last_searched g vs
last_searched fs (_ ∷ vs) = last_searched fs vs

module _ (cfg : Config) where
  abbrev pub IsListOf : FileSystem → Running → Type 0
  IsListOf fs r = r.exporter.watch_list ≡ found cfg fs

  scan_all-watch_list : (c : Cycle) (e : Exporter) → (scan_all cfg c e).watch_list ≡ e.watch_list
  unfolding scan_all
  scan_all-watch_list c e = ground arith

  happen-IsListOf :
      (fs : FileSystem) (v : Event) (r s : Running)
      → IsListOf fs r
      → happen cfg v r ≡ some s
      → IsListOf (last_searched fs (v ∷ [])) s
  unfolding happen set_list set_count trigger_reload
  happen-IsListOf fs (first_scan c) r s p h = ground (arith, scan_all-watch_list c r.exporter)
  happen-IsListOf fs (scan_tick c) r s p h = ground (arith, scan_all-watch_list c r.exporter)
  happen-IsListOf fs take_signal r s p h = ground arith
  happen-IsListOf fs (reload_list g) r s p h = ground arith
  happen-IsListOf fs reload_count r s p h = ground arith
  happen-IsListOf fs (reload_scan c) r s p h = ground (arith, scan_all-watch_list c r.exporter)
  happen-IsListOf fs discovery_start r s p h = ground arith
  happen-IsListOf fs (tick_list g) r s p h = ground arith
  happen-IsListOf fs tick_count r s p h = ground arith
  happen-IsListOf fs tick_signal r s p h = ground arith
  happen-IsListOf fs request r s p h = ground arith
  happen-IsListOf fs stop r s p h = ground arith
  happen-IsListOf fs scan_return r s p h = ground arith
  happen-IsListOf fs discovery_return r s p h = ground arith

  last_searched-cons :
      (fs : FileSystem) (v : Event) (vs : List Event)
      → last_searched fs (v ∷ vs) ≡ last_searched (last_searched fs (v ∷ [])) vs
  last_searched-cons fs (first_scan c) vs = refl
  last_searched-cons fs (scan_tick c) vs = refl
  last_searched-cons fs take_signal vs = refl
  last_searched-cons fs (reload_list g) vs = refl
  last_searched-cons fs reload_count vs = refl
  last_searched-cons fs (reload_scan c) vs = refl
  last_searched-cons fs discovery_start vs = refl
  last_searched-cons fs (tick_list g) vs = refl
  last_searched-cons fs tick_count vs = refl
  last_searched-cons fs tick_signal vs = refl
  last_searched-cons fs request vs = refl
  last_searched-cons fs stop vs = refl
  last_searched-cons fs scan_return vs = refl
  last_searched-cons fs discovery_return vs = refl

  pub run-IsListOf :
      (fs : FileSystem) (vs : List Event) (r t : Running)
      → IsListOf fs r
      → run cfg vs r ≡ some t
      → IsListOf (last_searched fs vs) t
  run-IsListOf fs [] r t p h = subst (IsListOf fs) (run-end cfg r t h) p
  run-IsListOf fs (v ∷ vs) r t p h =
      let (s, here, rest) = run-step cfg v vs r t h in
      rw (last_searched-cons fs v vs)
        (run-IsListOf (last_searched fs (v ∷ [])) vs s t (happen-IsListOf fs v r s p here) rest)
