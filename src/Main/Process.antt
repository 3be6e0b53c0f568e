-- ===== src/Main/Process.antt =====
-- main.go: the process from the start of its server to its end, with the two loops, the goroutine of
-- the server and `main` itself. `done` says that `ctx` is cancelled. The server is a parameter: what it
-- returns is in the events, and a handler may still run when `Shutdown` returns.
use directory_exporter.Common.{
  ◌==◌, Bool, true, false, not, List, [], ◌∷◌, ◌++◌, Option, none, some, Bytes, codes,
  if◌then◌else◌,
}
use directory_exporter.Go.Slog.{LogLine, info, error}
use directory_exporter.Config.{Config}
use directory_exporter.Exporter.Loops.{Running, Event, request, stop, happen, guard, wait_count}
use directory_exporter.Main.{Serving}

-- Where `main` is: in front of `<-ctx.Done()`, of `exp.Stop()`, of `e.wg.Wait()` in it, of
-- `srv.Shutdown`, of its last line, or at its end.
pub data MainPlace : Type 0 where
  blocked : MainPlace
  woken : MainPlace
  closing : MainPlace
  drained : MainPlace
  shut : MainPlace
  ended : MainPlace

-- Where the goroutine of the server is.
pub data HttpPlace : Type 0 where
  unlistened : HttpPlace
  listening : HttpPlace
  failed : HttpPlace
  finished : HttpPlace

pub record Process : Type 0 where
  pub running : Running
  pub place : MainPlace
  pub http : HttpPlace
  pub done : Bool
  pub server_shut : Bool
  pub log : List LogLine

pub data ProcessEvent : Type 0 where
  -- a step of the loops or of a handler
  loop_event : Event → ProcessEvent
  -- the goroutine of the server: its call, and its return
  server_listens : ProcessEvent
  server_fails : Bytes → ProcessEvent
  server_finishes : ProcessEvent
  -- SIGTERM or SIGINT, as long as it is caught: behind `stop()` it ends the process at once
  signal : ProcessEvent
  -- the steps of `main`
  main_wakes : ProcessEvent
  main_stops : ProcessEvent
  main_waits : ProcessEvent
  main_shuts : ProcessEvent
  main_ends : ProcessEvent

abbrev pub is_blocked : MainPlace → Bool
is_blocked blocked = true
is_blocked _ = false

abbrev pub is_woken : MainPlace → Bool
is_woken woken = true
is_woken _ = false

abbrev pub is_closing : MainPlace → Bool
is_closing closing = true
is_closing _ = false

abbrev pub is_drained : MainPlace → Bool
is_drained drained = true
is_drained _ = false

abbrev pub is_shut : MainPlace → Bool
is_shut shut = true
is_shut _ = false

abbrev pub is_ended : MainPlace → Bool
is_ended ended = true
is_ended _ = false

abbrev pub is_unlistened : HttpPlace → Bool
is_unlistened unlistened = true
is_unlistened _ = false

abbrev pub is_listening : HttpPlace → Bool
is_listening listening = true
is_listening _ = false

abbrev pub is_failed : HttpPlace → Bool
is_failed failed = true
is_failed _ = false

-- `main` alone closes `stopCh`, and requests need a server.
abbrev pub is_allowed : Event → HttpPlace → Bool
is_allowed stop h = false
is_allowed request h = not (is_unlistened h)
is_allowed _ h = true

abbrev pub with_running : MainPlace → Process → Option Running → Option Process
with_running m p none = none
with_running m p (some r) = some (record p { running = r; place = m })

-- `log.Info` and `log.Error` of `main`.
abbrev pub say : LogLine → Process → Process
say line p = record p { log = p.log ++ (line ∷ []) }

abbrev pub plain : Bytes → LogLine
plain s = record { level = info; message = s; values = [] }

module _ (cfg : Config) where
  unfoldable pub move : ProcessEvent → Process → Option Process
  move (loop_event v) p =
      if is_allowed v p.http then with_running p.place p (happen cfg v p.running) else none
  move server_listens p =
      guard (is_unlistened p.http)
        (record (say
          (record {
            level = info;
            message = codes "HTTP server listening";
            values = (codes "addr", cfg.listen_addr) ∷ [];
          })
          p) { http = listening })
  move (server_fails e) p =
      guard (is_listening p.http)
        (record (say
          (record {
            level = error;
            message = codes "HTTP server error";
            values = (codes "error", e) ∷ [];
          })
          p) { http = failed; done = true })
  move server_finishes p =
      if p.server_shut then guard (is_listening p.http) (record p { http = finished }) else none
  move signal p =
      if is_failed p.http then none else guard (is_blocked p.place) (record p { done = true })
  move main_wakes p =
      if p.done
      then guard (is_blocked p.place)
          (record (say (plain (codes "shutting down")) p) { place = woken })
      else none
  move main_stops p =
      if is_woken p.place then with_running closing p (happen cfg stop p.running) else none
  move main_waits p =
      if is_closing p.place
      then guard (wait_count p.running == 0) (record p { place = drained })
      else none
  move main_shuts p = guard (is_drained p.place) (record p { place = shut; server_shut = true })
  move main_ends p =
      guard (is_shut p.place) (record (say (plain (codes "stopped")) p) { place = ended })

  -- Nothing happens behind the end of `main`.
  unfoldable pub proceed : ProcessEvent → Process → Option Process
  unfolding move
  proceed v p = if is_ended p.place then none else move v p

  unfoldable pub process : List ProcessEvent → Process → Option Process
  unfolding proceed
  process [] p = some p
  process (v ∷ vs) p = elim (proceed v p) [ none ↦ none | some q ↦ process vs q ]

unfoldable pub begin : Serving → Process
begin s = record {
  running = s.running;
  place = blocked;
  http = unlistened;
  done = false;
  server_shut = false;
  log = s.log;
}
