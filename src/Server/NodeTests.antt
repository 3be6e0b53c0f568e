-- ===== src/Server/NodeTests.antt =====
-- A collector node with its file audit_info, scraped after a cycle over an empty watch list.
use mathlib.Core.List.{Memᴰ}
use directory_exporter.Common.{
  sub_int64, member, pos, true, false, List, [], ◌∷◌, Bytes, codes, eqb, none, some, if◌then◌else◌,
  ◌≡◌, refl, sym, subst,
}
use directory_exporter.Go.Strconv.{parse_int}
use directory_exporter.Go.Strings.{fields, has_prefix}
use directory_exporter.Go.FilePath.{join_paths, clean, join_path}
use directory_exporter.Types.{StreamNode, NodeActivity}
use directory_exporter.Go.Os.{FileSystem, FileInfo, DirEntry, Result, ok, err, directory}
use directory_exporter.Config.{Config, defaults}
use directory_exporter.Activity.Nodes.{discover_stream_nodes, collector}
use directory_exporter.Activity.ScanAll.{node_activity}
use directory_exporter.Exporter.{Cycle, background, new_exporter, scan_all}
use directory_exporter.Metrics.Text.{decimal}
use directory_exporter.Metrics.Render.{Format}
use directory_exporter.Metrics.Read.{Sample, read_text}
use directory_exporter.Metrics.Scrape.Families.{decimal-one_line}
use directory_exporter.Server.{serve}
use directory_exporter.Server.Lifecycle.{get_request}
use directory_exporter.Server.ScrapeNodes.{delay_sample, serve-scrape_delay}

abbrev audit : Bytes
audit = codes "/s/orders/nodes/n1/storage/1/audit_info"

stat_of : Bytes → Result FileInfo
stat_of p =
    if eqb p (codes "/s/orders/nodes")
    then ok (record { is_dir = true; mod_time = pos 0 })
    else if eqb p audit
    then ok (record { is_dir = false; mod_time = pos 0 })
    else err (codes "no such file")

list_of : Bytes → Result (List DirEntry)
list_of p =
    if eqb p (codes "/s")
    then ok (record { name = codes "orders"; entry_type = directory; info = none } ∷ [])
    else if eqb p (codes "/s/orders/nodes")
    then ok (record { name = codes "n1"; entry_type = directory; info = none } ∷ [])
    else err (codes "no such file")

text_of : Bytes → Result Bytes
text_of p = if eqb p audit then ok (codes "in.csv 1699999000") else err (codes "no such file")

abbrev fs : FileSystem
fs = record {
  stat = stat_of;
  open_dir = λ p. err (codes "no such file");
  read_dir = list_of;
  read_file = text_of;
  eval_symlinks = λ p. err (codes "no such file");
}

abbrev cfg : Config
cfg = record defaults {
  targets =
      record {
        base = codes "/s";
        label = codes "prod";
        dirs = [];
        max_depth = pos 1;
        pattern = [];
        include = [];
      }
      ∷ [];
}

abbrev cycle : Cycle
cycle = record {
  fs = fs;
  clock = record { parse_in_location = λ l s. none; day_stamp = λ d. []; glob = λ p. ok [] };
  now = pos 1700000000000000000;
  end_time = pos 1700000001000000000;
  elapsed = λ p. 9;
  launch_done = background;
  scan_done = λ p. background;
  activity_done = background;
  buffer_done = background;
  count_done = λ d p. background;
}

abbrev n1 : StreamNode
n1 = record {
  base = codes "prod";
  stream = codes "orders";
  node = codes "n1";
  node_dir = codes "/s/orders/nodes/n1";
  node_type = collector;
}

abbrev activity : NodeActivity
activity = record {
  base = codes "prod";
  stream = codes "orders";
  node = codes "n1";
  node_type = collector;
  last_activity_timestamp = pos 1699999000;
  delay_sec = pos 1000;
  last_file = codes "in.csv";
  success = true;
}

abbrev fmt : Format
fmt = record { whole = decimal; duration = λ n. decimal (pos n) }

discovered : discover_stream_nodes fs cfg.targets ≡ n1 ∷ []
unfolding discover_stream_nodes list_of clean stat_of join_paths has_prefix member join_path text_of
discovered = refl

active :
    node_activity fs cycle.clock cfg.min_delay cycle.now cfg.tracelog_dir cfg.trace_lookback_days n1
    ≡ some activity
unfolding node_activity text_of join_paths fields parse_int defaults sub_int64
active = refl

serve-scrape_delay_example :
    (xs : List Sample) × (read_text
        (serve cfg fmt (get_request (codes "/metrics") []) (scan_all cfg cycle new_exporter)).0.body
      ≡ some xs)
    × Memᴰ (delay_sample fmt activity) xs
serve-scrape_delay_example =
    serve-scrape_delay cfg fmt cycle new_exporter n1 activity []
      (record { whole = decimal-one_line; duration = λ n. decimal-one_line (pos n) }) (λ k. refl)
      (subst (Memᴰ n1) (sym discovered) (Memᴰ.head refl)) active refl
