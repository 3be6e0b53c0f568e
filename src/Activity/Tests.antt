-- ===== src/Activity/Tests.antt =====
-- A stream with a collector and a distributor node, and their files.
use directory_exporter.Common.{
  ℕ, member, ℤ, pos, select, write_all, get, Reordered, swap, Bool, true, false, List, [], ◌∷◌,
  ◌++◌, Option, none, some, Bytes, codes, if◌then◌else◌, ◌≡◌, ◌⊎◌, refl, eqb, sub_int64, subst, sym,
  ◌||◌, ◌==◌,
}
use directory_exporter.Types.{StreamNode, NodeActivity, Target}
use directory_exporter.Go.Os.{FileSystem, FileInfo, DirEntry, Result, ok, err, directory}
use directory_exporter.Go.FilePath.{clean, join_path, join_paths, base_name}
use directory_exporter.Go.Strings.{has_prefix, contains, to_lower, fields, trim_space, in_set}
use directory_exporter.Go.Sort.{sort}
use directory_exporter.Go.Strconv.{parse_int}
use directory_exporter.Go.Lines.{scan_lines}
use directory_exporter.Activity.Nodes.{discover_stream_nodes, collector, distributor}
use directory_exporter.Activity.Delay.{delay_since, unix}
use directory_exporter.Activity.Collector.{scan_collector_activity, no_activity, activity_at}
use directory_exporter.Activity.Distributor.{Clock, scan_distributor_activity}
use directory_exporter.Activity.ScanAll.{activity_write, started, scan_all_node_activities}
use directory_exporter.Activity.AnyOrder.{scan_all_node_activities-any_order}
use directory_exporter.Activity.Traces.{
  searched, HasNoEvent, IsFound, scan_distributor_activity-outcome,
}
use directory_exporter.Activity.Outcome.{IsCollected, IsFailure, scan_collector_activity-outcome}

entry : Bytes → DirEntry
entry name = record { name = name; entry_type = directory; info = none }

stat_of : Bytes → Result FileInfo
stat_of p =
    if eqb p (codes "/s/orders/nodes") || eqb p (codes "/s/orders/nodes/n1/storage/1/audit_info")
    then ok (record { is_dir = eqb p (codes "/s/orders/nodes"); mod_time = pos 0 })
    else err (codes "no such file")

list_of : Bytes → Result (List DirEntry)
unfolding entry
list_of p =
    if eqb p (codes "/s")
    then ok (entry (codes "orders") ∷ [])
    else if eqb p (codes "/s/orders/nodes")
    then ok (entry (codes "mail1") ∷ entry (codes "n1") ∷ entry (codes "dist") ∷ [])
    else err (codes "no such file")

abbrev trace : Bytes
trace =
    codes "20261126 103000.250 [dist] Distributed file: /out/a.csv"
    ++ (10
        ∷ (codes "20261126 103100 [dist.1] Distributed file /out/b.csv"
            ++ (10 ∷ codes "20261126 103200 [other] Distributed file: /out/c.csv")))

text_of : Bytes → Result Bytes
text_of p =
    if eqb p (codes "/s/orders/nodes/n1/storage/1/audit_info")
    then ok (codes "in.csv 1700")
    else if eqb p (codes "/t/execution_trace_orders_1_a")
    then ok trace
    else err (codes "no such file")

abbrev fs : FileSystem
fs = record {
  stat = stat_of;
  open_dir = λ p. err [];
  read_dir = list_of;
  read_file = text_of;
  eval_symlinks = λ p. err [];
}

time_of : Bytes → Bytes → Option ℤ
time_of layout stamp =
    if eqb layout (codes "20060102 15:04:05")
    then if eqb stamp (codes "20261126 10:30:00")
      then some (pos 1800000000000)
      else if eqb stamp (codes "20261126 10:31:00")
      then some (pos 1860000000000)
      else none
    else none

-- Only yesterday has a trace file.
files_of : Bytes → Result (List Bytes)
files_of pattern =
    if eqb pattern (codes "/t/execution_trace_orders_1_*")
    then ok (codes "/t/execution_trace_orders_1_a" ∷ [])
    else ok []

abbrev clock : Clock
clock = record {
  parse_in_location = time_of;
  day_stamp = λ d. if d == 0 then codes "0" else codes "1";
  glob = files_of;
}

abbrev targets : List Target
targets =
    record {
      base = codes "/s/";
      label = codes "prod";
      dirs = [];
      max_depth = pos 1;
      pattern = [];
      include = [];
    }
    ∷ []

abbrev n1 : StreamNode
n1 = record {
  base = codes "prod";
  stream = codes "orders";
  node = codes "n1";
  node_dir = codes "/s/orders/nodes/n1";
  node_type = collector;
}

abbrev dist : StreamNode
dist = record {
  base = codes "prod";
  stream = codes "orders";
  node = codes "dist";
  node_dir = codes "/s/orders/nodes/dist";
  node_type = distributor;
}

abbrev live : ℕ → Bool
live k = false

discovered : discover_stream_nodes fs targets ≡ n1 ∷ dist ∷ []
unfolding discover_stream_nodes entry stat_of list_of text_of clean join_paths has_prefix member
    join_path contains to_lower
discovered = refl

abbrev collected_act : NodeActivity
collected_act = record {
  base = codes "prod";
  stream = codes "orders";
  node = codes "n1";
  node_type = collector;
  last_activity_timestamp = pos 1700;
  delay_sec = pos 200;
  last_file = codes "in.csv";
  success = true;
}

collected_sample : scan_collector_activity fs (pos 0) (pos 1900000000000) n1 ≡ (collected_act, none)
unfolding scan_collector_activity text_of join_paths fields parse_int sub_int64
collected_sample = refl

abbrev distributed_act : NodeActivity
distributed_act = record {
  base = codes "prod";
  stream = codes "orders";
  node = codes "dist";
  node_type = distributor;
  last_activity_timestamp = pos 1860;
  delay_sec = pos 0;
  last_file = codes "b.csv";
  success = true;
}

-- A minimum delay of 40 s hides the delay of 40 s.
distributed_sample :
    scan_distributor_activity fs clock
      (pos 40000000000)
      (pos 1900000000000)
      (codes "/t")
      (pos 3)
      dist
    ≡ distributed_act
unfolding scan_distributor_activity text_of files_of time_of join_path sort scan_lines contains
    fields trim_space delay_since base_name sub_int64 in_set
distributed_sample = refl

abbrev writes : List (Bytes × NodeActivity)
writes =
    (codes "prod/orders/n1/collector", collected_act)
    ∷ (codes "prod/orders/dist/distributor", distributed_act)
    ∷ []

abbrev other_order : List (Bytes × NodeActivity)
other_order =
    (codes "prod/orders/dist/distributor", distributed_act)
    ∷ (codes "prod/orders/n1/collector", collected_act)
    ∷ []

written :
    select
      (activity_write fs clock (pos 40000000000) (pos 1900000000000) (codes "/t") (pos 3))
      (started live 0 (n1 ∷ dist ∷ []))
    ≡ writes
unfolding activity_write started scan_collector_activity scan_distributor_activity text_of files_of
    time_of join_path join_paths sort scan_lines contains fields trim_space delay_since base_name
    sub_int64 in_set parse_int
written = refl

reached :
    select
      (activity_write fs clock (pos 40000000000) (pos 1900000000000) (codes "/t") (pos 3))
      (started live 0 (discover_stream_nodes fs targets))
    ≡ writes
reached = rw discovered written

scan_all_node_activities-any_order_example :
    get (codes "prod/orders/n1/collector") (write_all other_order [])
    ≡ get (codes "prod/orders/n1/collector") (
        scan_all_node_activities fs clock
          (pos 40000000000)
          (pos 1900000000000)
          (codes "/t")
          (pos 3)
          live
          (discover_stream_nodes fs targets))
scan_all_node_activities-any_order_example =
    scan_all_node_activities-any_order fs clock (pos 40000000000) (pos 1900000000000) (codes "/t")
      (pos 3) targets live (codes "prod/orders/n1/collector")
      (subst (λ ws. Reordered (Bytes × NodeActivity) ws other_order) (sym reached) (swap _ _))

scan_collector_activity-outcome_example :
    let r = scan_collector_activity fs (pos 0) (pos 1900000000000) n1 in
    ((r.1 ≡ none) × IsCollected fs (pos 0) (pos 1900000000000) n1 r.0)
    ⊎ IsFailure fs (pos 0) (pos 1900000000000) r
scan_collector_activity-outcome_example =
    scan_collector_activity-outcome fs (pos 0) (pos 1900000000000) n1

scan_distributor_activity-outcome_example :
    let act =
      scan_distributor_activity fs clock (pos 0) (pos 1900000000000) (codes "/t") (pos 3) dist in
    let files = searched fs clock (pos 0) (pos 1900000000000) (codes "/t") (pos 3) dist in
    (HasNoEvent fs clock (codes "/t") (codes "orders") (codes "dist") files
      × (act ≡ no_activity dist (codes "distributor") (codes "-")))
    ⊎ ((e : ℤ × Bytes) × IsFound fs clock (codes "/t") (codes "orders") (codes "dist") files e
        × (act
            ≡ activity_at dist
                (codes "distributor")
                e.1
                (unix e.0)
                (delay_since (pos 0) (unix (pos 1900000000000)) (unix e.0))))
scan_distributor_activity-outcome_example =
    scan_distributor_activity-outcome fs clock (pos 0) (pos 1900000000000) (codes "/t") (pos 3) dist
