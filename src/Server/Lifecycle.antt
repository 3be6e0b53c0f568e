-- ===== src/Server/Lifecycle.antt =====
-- The probes in every run of the two loops.
use directory_exporter.Common.{
  Bool, true, false, ◌||◌, List, [], ◌∷◌, some, if◌then◌else◌, Bytes, codes, ◌≡◌, arith, ap, ◌∙◌,
  sym,
}
use directory_exporter.Go.Os.{FileSystem}
use directory_exporter.Config.{Config}
use directory_exporter.Cache.{incr_reload, set_watched_total}
use directory_exporter.Exporter.{set_list, set_count, trigger_reload, discover}
use directory_exporter.Exporter.Loops.{
  Running, Event, first_scan, scan_tick, take_signal, reload_list, reload_count, reload_scan,
  discovery_start, tick_list, tick_count, tick_signal, request, stop, scan_return, discovery_return,
  happen, run, launch,
}
use directory_exporter.Exporter.Signals.{run-step, run-end}
use directory_exporter.Exporter.Entries.{scan_all-ready}
use directory_exporter.Metrics.Render.{Format, ready_family}
use directory_exporter.Server.{Request, serve}
use directory_exporter.Server.Probes.{ready_status, cold_body}

-- The events in which a cycle of `ScanAll` is run.
abbrev pub is_scan : Event → Bool
is_scan (first_scan c) = true
is_scan (scan_tick c) = true
is_scan (reload_scan c) = true
is_scan _ = false

abbrev pub scanned : List Event → Bool
scanned [] = false
scanned (v ∷ vs) = is_scan v || scanned vs

abbrev pub get_request : Bytes → Bytes → Request
get_request path authorization = record {
  method = codes "GET";
  path = path;
  authorization = authorization;
}

module _ (cfg : Config) where
  happen-ready :
      (v : Event) (r s : Running)
      → happen cfg v r ≡ some s
      → s.exporter.cache.ready ≡ (is_scan v || r.exporter.cache.ready)
  unfolding happen set_list set_count set_watched_total trigger_reload incr_reload
  happen-ready (first_scan c) r s h = ground (arith, (scan_all-ready cfg c r.exporter).0)
  happen-ready (scan_tick c) r s h = ground (arith, (scan_all-ready cfg c r.exporter).0)
  happen-ready (reload_scan c) r s h = ground (arith, (scan_all-ready cfg c r.exporter).0)
  happen-ready take_signal r s h = ground arith
  happen-ready (reload_list fs) r s h = ground arith
  happen-ready reload_count r s h = ground arith
  happen-ready discovery_start r s h = ground arith
  happen-ready (tick_list fs) r s h = ground arith
  happen-ready tick_count r s h = ground arith
  happen-ready tick_signal r s h = ground arith
  happen-ready request r s h = ground arith
  happen-ready stop r s h = ground arith
  happen-ready scan_return r s h = ground arith
  happen-ready discovery_return r s h = ground arith

  run-ready :
      (vs : List Event) (r t : Running)
      → run cfg vs r ≡ some t
      → t.exporter.cache.ready ≡ (scanned vs || r.exporter.cache.ready)
  run-ready [] r t h = sym (ap (λ x. x.exporter.cache.ready) (run-end cfg r t h))
  run-ready (v ∷ vs) r t h =
      let (s, here, rest) = run-step cfg v vs r t h in
      ground (arith, run-ready vs s t rest, happen-ready v r s here)

  -- In every run from the start: a GET request for /-/ready is answered with 200 if a cycle of the
  -- scan loop has been run, else with 503; and as long as none has been run, the response to one for
  -- /metrics holds the family directory_cache_ready with the value 0 and nothing else.
  pub serve-scanned :
      (fmt : Format) (fs : FileSystem) (vs : List Event) (t : Running) (authorization : Bytes)
      → run cfg vs (launch cfg fs) ≡ some t
      → ((serve cfg fmt (get_request (codes "/-/ready") authorization) t.exporter).0.status
          ≡ (if scanned vs then 200 else 503))
        × (scanned vs ≡ false
            → (serve cfg fmt (get_request (codes "/metrics") authorization) t.exporter).0.body
              ≡ ready_family fmt false)
  unfolding serve launch discover set_count set_list set_watched_total
  serve-scanned fmt fs vs t authorization h =
      let ready : t.exporter.cache.ready ≡ scanned vs = ground (arith, run-ready vs _ t h) in
      (
        ready_status cfg fmt t.exporter ∙ ap (λ b. if b then 200 else 503) ready,
        λ cold. cold_body cfg fmt t.exporter (ready ∙ cold),
      )
