-- ===== src/Main/Start.antt =====
-- What holds in every run of a process that `main` starts.
use directory_exporter.Common.{[], false, true, List, codes, is_empty, ◌≡◌, ◌⊎◌, if◌then◌else◌}
use directory_exporter.Go.Os.{FileSystem}
use directory_exporter.Config.{Config}
use directory_exporter.Config.Valid.{IsValid}
use directory_exporter.Exporter.Loops.{found}
use directory_exporter.Exporter.Listed.{last_searched}
use directory_exporter.Metrics.Render.{Format, ready_family}
use directory_exporter.Server.{serve}
use directory_exporter.Server.Lifecycle.{get_request, scanned}
use directory_exporter.Main.{Serving}
use directory_exporter.Main.Process.{Process, ProcessEvent}
use directory_exporter.Main.Inner.{inner_events}

-- The process `p` behind the events `vs`: its configuration is valid and has an address, its watch list
-- is what a search finds, the answer of the readiness probe says whether a cycle has been run, and
-- until then /metrics holds only the family that says so.
pub record IsServing (fs : FileSystem) (fmt : Format) (vs : List ProcessEvent) (s : Serving)
    (p : Process) : Type 0 where
  pub valid : IsValid s.config
  pub addr : (s.server.addr ≡ s.config.listen_addr) × (is_empty s.server.addr ≡ false)
  pub watched : p.running.exporter.watch_list ≡ found s.config (last_searched fs (inner_events vs))
  pub readiness :
      (serve s.config fmt (get_request (codes "/-/ready") []) p.running.exporter).0.status
      ≡ (if scanned (inner_events vs) then 200 else 503)
  pub cold :
      (scanned (inner_events vs) ≡ true)
      ⊎ ((serve s.config fmt (get_request (codes "/metrics") []) p.running.exporter).0.body
          ≡ ready_family fmt false)
