-- ===== src/Main/EndTests.antt =====
-- A process whose server cannot listen: both loops begin, and it ends.
use directory_exporter.Common.{
  ◌≤◌, ◌⊎◌, ◌||◌, true, List, [], ◌∷◌, ◌++◌, map, codes, some, none, ◌≡◌, refl, pos,
}
use directory_exporter.Go.Os.{FileSystem, ok, err}
use directory_exporter.Config.{defaults}
use directory_exporter.Exporter.{Cycle, background}
use directory_exporter.Exporter.Loops.{
  discovery_start, first_scan, scan_return, discovery_return, happen, launch, wait_count,
}
use directory_exporter.Exporter.Places.{HasBegun, HasReturned}
use directory_exporter.Exporter.Startup.{validation_log, discovery_log}
use directory_exporter.Watch.Targets.{discover_targets}
use directory_exporter.Main.{start, start_log}
use directory_exporter.Main.Process.{
  ended, is_failed, Process, ProcessEvent, loop_event, server_listens, server_fails, main_wakes,
  main_stops, main_waits, main_shuts, main_ends, process, begin,
}
use directory_exporter.Main.Order.{has_signal, process-ordered}
use directory_exporter.Main.Ends.{counted, CanProceed, process_terminates}

abbrev fs : FileSystem
fs = record {
  stat = λ p. err (codes "gone");
  open_dir = λ p. err (codes "gone");
  read_dir = λ p. err (codes "gone");
  read_file = λ p. err (codes "gone");
  eval_symlinks = λ p. ok p;
}

abbrev cycle : Cycle
cycle = record {
  fs = fs;
  clock = record { parse_in_location = λ l s. none; day_stamp = λ d. []; glob = λ p. ok [] };
  now = pos 1700000000000;
  end_time = pos 1701000000000;
  elapsed = λ p. 9;
  launch_done = background;
  scan_done = λ p. background;
  activity_done = background;
  buffer_done = background;
  count_done = λ d p. background;
}

abbrev first_events : List ProcessEvent
first_events =
    loop_event discovery_start
    ∷ server_listens
    ∷ loop_event (first_scan cycle)
    ∷ server_fails (codes "address already in use")
    ∷ main_wakes
    ∷ []

abbrev last_events : List ProcessEvent
last_events =
    loop_event scan_return ∷ loop_event discovery_return ∷ main_waits ∷ main_shuts ∷ main_ends ∷ []

fails : (p : Process) × (process defaults first_events (begin (start fs defaults)) ≡ some p)
unfolding process begin start launch happen
fails = (_, refl)

ends : (t : Process) × (process defaults (main_stops ∷ last_events) fails.0 ≡ some t)
unfolding process begin start launch happen fails wait_count
ends = (_, refl)

-- The lines behind those of the start.
ends-log :
    map (λ l. l.message) ends.0.log
    ≡ map (λ l. l.message) (start_log fs defaults)
      ++ (codes "HTTP server listening"
          ∷ codes "HTTP server error"
          ∷ codes "shutting down"
          ∷ codes "stopped"
          ∷ [])
unfolding ends process begin start launch happen fails wait_count start_log defaults validation_log
    discovery_log discover_targets
ends-log = refl

process-ordered_example :
    ((has_signal first_events || is_failed fails.0.http) ≡ true)
    × (ends.0.running.stopped ≡ true)
    × (HasBegun fails.0.running → ends.0.server_shut ≡ true → HasReturned ends.0.running)
    × (ends.0.place ≡ ended → ends.0.server_shut ≡ true)
process-ordered_example =
    process-ordered defaults fs first_events last_events fails.0 ends.0 fails.1 ends.1

process_terminates_example :
    (counted last_events ≤ 10) × ((ends.0.place ≡ ended) ⊎ CanProceed defaults ends.0)
process_terminates_example =
    process_terminates defaults fs cycle first_events last_events fails.0 ends.0 fails.1 ends.1
      (refl, (refl, (refl, (refl, (refl, tt)))))
