-- ===== src/Lib.antt =====
-- Directory Exporter: a Prometheus exporter for the number and the age of the files in watched
-- directories, and for the nodes of data streams. This library models the Go program of the
-- repository's root as definitions that can be evaluated, and proves what makes it correct.
--
-- The program and its model:
--
-- - config.go, `LoadConfig`: built-in defaults, then the YAML file, then the environment. Config.antt
--   has the layers one by one; Config/Precedence, Valid, Loaded and Failures prove what comes out of
--   them.
-- - watchlist.go: which directories are watched. Watch/Pattern has `matchPattern`,
--   `matchPatternPrefix` and `matchesInclude`; Watch/Walk the recursive search of
--   `discoverDirectories` with its map of ancestors; Watch/Targets `discoverTargets` and explicit
--   directories; Watch/Validate `validateTargets`. The other modules of Watch hold the proofs,
--   Watch/Exact the description that the search is compared with.
-- - scanner.go, `scanDir`: the files of one directory. Scanner.antt has its two loops, Scanner/Spec the
--   one pass over the entries that they are compared with.
-- - activity.go: Activity/Nodes has `detectNodeType` and `DiscoverStreamNodes`, Activity/Collector and
--   Activity/Distributor the last activity of a node, Activity/ScanAll `ScanAllNodeActivities`;
--   Activity/TraceLine has the lines of the trace files; Activity/Traces and Activity/Written say what
--   is found and written.
-- - buffer.go: Buffer/Resolve reads the configuration of a node, whose lines are in Buffer/Settings;
--   Buffer/Count has `countBufferFiles`, Buffer/ScanAll `ScanAllNodeBuffers`.
-- - cache.go: Cache.antt has the operations; Cache/History the steps in which goroutines write to the
--   cache, and Cache/Snapshot the loads of `Snapshot` between such steps.
-- - exporter.go: Exporter.antt has `Discover`, `TriggerReload` and `ScanAll`, Exporter/Startup
--   `ValidateTargets`, Exporter/Loops the two loops and `Stop` as events that happen in any order that
--   their places allow; Exporter/Shutdown, Size, Listed, Requests and Overlap prove what holds of such
--   runs, and Server/Lifecycle what the handlers then answer.
-- - metrics.go: Metrics/Text has `lv`, `help` and `typ`, Metrics/Render `RenderMetrics`. Metrics/Read
--   is a reader of the text format, Metrics/Samples the samples of a snapshot, and Metrics/Scrape
--   relates the two.
-- - server.go: Server.antt has the four handlers and the patterns of `NewMux`. Server/Scrape,
--   ScrapeNodes and Fresh go from the file system through a cycle and a request to the samples.
-- - main.go: Main.antt has the health check mode, what is logged, and the process up to the server;
--   Main/Health proves which port the health check asks.
--   Main/Process has what follows as steps of `main`, the goroutine of the server and the loops, whose
--   events are those of Exporter/Loops; Main/Order and Main/Ends prove how a process ends,
--   and Main/Start what holds in all its runs.
--
-- `ScanAll` reads the watch list, starts a goroutine for each directory (`scanDir`), and beside them
-- those for the nodes; it writes a batch to the cache. The handlers read the cache, and a reload
-- request puts a signal into a channel that the scan loop empties. The results of goroutines go into
-- maps under a lock: such a map is `write_all` of the list of writes, and the theorems on orders say
-- that every reordering of the list gives the same map.
--
-- What stands for what: a string is the list of its bytes (Common/Text). The native numbers stand for
-- Go's counters; `int64` times are integers with their range as a hypothesis, `uint64` and `int32`
-- counters and the subtraction of times wrap around as in Go. A map is a list of pairs (Common/Maps).
-- A mutated object is a record that a function takes and returns. A `Context` is a function of how
-- often it was polled, so that it may end between any two polls. The file system is a record of
-- functions (Go/Os), constant during one scan and another for each event of a run. Go holds what the
-- program calls of the standard library, translated from its documented behaviour.
--
-- Parameters, since they are not code of the repository: the YAML decoder, the bytes of `rand.Read`,
-- the file system, the environment, `time.ParseInLocation` and calendar days in the local time zone,
-- `filepath.Glob`, the verb `%g`, and the durations that clocks measure.
--
-- Recursion: the walk of directories recurses on the levels that are left, which is `maxDepth` less the
-- depth and reaches 0 where the source returns; `time.ParseDuration` reads at most as many terms as the
-- text has bytes; a number has at most as many digits as one more than its value; the search over the
-- days recurses on the days that are left. All other loops are structural on lists.
--
-- Abstractions: `%q` leaves bytes from 128 on as they are; a value of the log is its printed text; a
-- `float64` that holds a whole number is that integer,
-- and `minDelay.Seconds()` is rounded down exactly; the fraction of a duration is exact. `Fields`,
-- `TrimSpace`, `ToLower` and the `?` of a pattern read a byte as a character, as is right for ASCII.
-- The number of workers bounds only how many goroutines run at a time, and is left out. A cycle of
-- `ScanAll` is one event of Exporter/Loops: it copies the watch list at its start, and what it writes
-- no other event reads or writes; the steps inside a batch are those of Cache/History. A result map
-- that is walked is walked in the order of its list.
--
-- When a signal that is caught comes, and when and with what error `ListenAndServe` returns, is in the
-- events of a process; the end of `srv.Shutdown` is one event, so that its limit of 15 s is left out.
-- A signal behind `stop()` ends the process by default: there its run ends, with no event for it.
--
-- Not modelled: what is logged inside the loops, the handlers and `LoadConfig`; what `net/http` does
-- behind the patterns and the settings, which is the standard library; the tests, dashboards and
-- documents.
pub mod Common
pub mod Go
pub mod Scanner
pub mod Types
pub mod Watch
pub mod Config
pub mod Activity
pub mod Buffer
pub mod Cache
pub mod Exporter
pub mod Metrics
pub mod Server
pub mod Main
