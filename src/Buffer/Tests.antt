-- ===== src/Buffer/Tests.antt =====
-- A collector node with a watched and an unwatched source directory.
use directory_exporter.Common.{
  ℕ, pos, select, write_all, get, Reordered, swap, Bool, true, false, List, [], ◌∷◌, ◌++◌, none,
  Bytes, codes, if◌then◌else◌, ◌≡◌, arith, refl, eqb, ◌||◌, ◌&&◌, not, is_empty, subst, sym, member,
  put,
}
use directory_exporter.Types.{StreamNode, NodeBuffer, DirMetrics, Target}
use directory_exporter.Go.Os.{
  FileSystem, FileInfo, DirEntry, Read, Result, ok, err, directory, regular, symlink,
}
use directory_exporter.Go.FilePath.{clean, join_path, join_paths}
use directory_exporter.Go.Strings.{
  has_prefix, contains, to_lower, trim_space, fields, trim_prefix, trim, trim_left,
}
use directory_exporter.Activity.Nodes.{discover_stream_nodes, collector, quoted_value}
use directory_exporter.Activity.ScanAll.{started}
use directory_exporter.Scanner.{scan_dir}
use directory_exporter.Buffer.Count.{count_buffer_files}
use directory_exporter.Buffer.Resolve.{
  is_collector, extract_source_directory, resolve_node_buffer_paths,
}
use directory_exporter.Buffer.ScanAll.{
  by_clean_path, collector_write, scan_all_node_buffers, node_buffer,
}
use directory_exporter.Buffer.Exact.{count_buffer_files-scan_dir}
use directory_exporter.Buffer.Total.{sum, all_some, path_count, node_buffer_total}
use directory_exporter.Buffer.AnyOrder.{scan_all_node_buffers-any_order}

entry : Bytes → DirEntry
entry name = record { name = name; entry_type = directory; info = none }

stat_of : Bytes → Result FileInfo
stat_of p =
    if eqb p (codes "/s/orders/nodes") || eqb p (codes "/in/link")
    then ok (record { is_dir = eqb p (codes "/s/orders/nodes"); mod_time = pos 0 })
    else err (codes "no such file")

list_of : Bytes → Result (List DirEntry)
unfolding entry
list_of p =
    if eqb p (codes "/s")
    then ok (entry (codes "orders") ∷ [])
    else if eqb p (codes "/s/orders/nodes")
    then ok (entry (codes "n1") ∷ entry (codes "n2") ∷ [])
    else err (codes "no such file")

abbrev settings : Bytes
settings =
    codes "# collector"
    ++ (10
        ∷ (codes "NodeType \"collector\""
            ++ (10
                ∷ (codes "SourceDirectory: /watched/"
                    ++ (10 ∷ codes "  SourceDirectory \"/in\"")))))

text_of : Bytes → Result Bytes
text_of p =
    if eqb p (codes "/s/orders/nodes/n1/control/1/config")
      || eqb p (codes "/s/orders/nodes/n2/control/1/config")
    then ok settings
    else err (codes "no such file")

abbrev reads : List Read
reads =
    record {
      entries =
          record { name = codes "a"; entry_type = regular; info = none }
          ∷ record { name = codes "link"; entry_type = symlink; info = none }
          ∷ record { name = codes "sub"; entry_type = directory; info = none }
          ∷ [];
      failed = false;
    }
    ∷ []

abbrev fs : FileSystem
fs = record {
  stat = stat_of;
  open_dir = λ p. if eqb p (codes "/in") then ok reads else err (codes "no such file");
  read_dir = list_of;
  read_file = text_of;
  eval_symlinks = λ p. err [];
}

abbrev live : ℕ → Bool
live k = false

abbrev targets : List Target
targets =
    record {
      base = codes "/s";
      label = codes "prod";
      dirs = [];
      max_depth = pos 1;
      pattern = [];
      include = [];
    }
    ∷ []

abbrev results : List (Bytes × DirMetrics)
results =
    (
      codes "/watched",
      record {
        file_count = 40;
        oldest_timestamp_sec = pos 1;
        newest_timestamp_sec = pos 2;
        scan_duration = 5;
        scan_success = 1;
        truncated = false;
        labels = record { base = codes "prod"; stream = codes "watched"; kind = [] };
      },
    )
    ∷ []

abbrev buffer_of : Bytes → NodeBuffer
buffer_of name = record {
  base = codes "prod";
  stream = codes "orders";
  node = name;
  node_type = collector;
  buffer_path = codes "/watched/,/in";
  file_count = 42;
  success = true;
}

abbrev node_of : Bytes → StreamNode
node_of name = record {
  base = codes "prod";
  stream = codes "orders";
  node = name;
  node_dir = codes "/s/orders/nodes/" ++ name;
  node_type = collector;
}

abbrev writes : List (Bytes × NodeBuffer)
writes =
    (codes "prod/orders/n1/collector", buffer_of (codes "n1"))
    ∷ (codes "prod/orders/n2/collector", buffer_of (codes "n2"))
    ∷ []

abbrev other_order : List (Bytes × NodeBuffer)
other_order =
    (codes "prod/orders/n2/collector", buffer_of (codes "n2"))
    ∷ (codes "prod/orders/n1/collector", buffer_of (codes "n1"))
    ∷ []

discovered : discover_stream_nodes fs targets ≡ node_of (codes "n1") ∷ node_of (codes "n2") ∷ []
unfolding discover_stream_nodes stat_of list_of text_of clean join_paths has_prefix member join_path
    contains to_lower
discovered = refl

written :
    select
      (collector_write fs (λ d p k. false) (by_clean_path results []))
      (started live 0 (node_of (codes "n1") ∷ node_of (codes "n2") ∷ []))
    ≡ writes
unfolding collector_write started stat_of text_of is_collector contains to_lower trim_space
    resolve_node_buffer_paths join_paths quoted_value fields trim_prefix get by_clean_path put
    count_buffer_files join_path
written = refl

bare_word : extract_source_directory (codes "SourceDirectory: '/data/in' # main") ≡ codes "/data/in"
unfolding extract_source_directory quoted_value fields trim_left trim_prefix trim
bare_word = refl

reached :
    select
      (collector_write fs (λ d p k. false) (by_clean_path results []))
      (started live 0 (discover_stream_nodes fs targets))
    ≡ writes
reached = rw discovered written

scan_all_node_buffers-any_order_example :
    get (codes "prod/orders/n1/collector") (write_all other_order [])
    ≡ get
        (codes "prod/orders/n1/collector")
        (scan_all_node_buffers fs (λ d p k. false) live results (discover_stream_nodes fs targets))
scan_all_node_buffers-any_order_example =
    scan_all_node_buffers-any_order fs (λ d p k. false) targets live results
      (codes "prod/orders/n1/collector")
      (subst (λ ws. Reordered (Bytes × NodeBuffer) ws other_order) (sym reached) (swap _ _))

count_buffer_files-scan_dir_example :
    count_buffer_files fs (codes "/in") live
    ≡ ((scan_dir fs (codes "/in") live (pos 0) (pos 1) 7).file_count, true)
count_buffer_files-scan_dir_example =
    count_buffer_files-scan_dir fs (codes "/in") live (pos 0) (pos 1) 7 reads (λ k. refl)
      (omega arith) refl

abbrev both_paths : List Bytes
both_paths = codes "/watched/" ∷ codes "/in" ∷ []

node_buffer_total_example :
    let counts = path_count fs (λ d p k. false) results (node_of (codes "n1")).node_dir in
    ((node_buffer fs (λ d p k. false) results (node_of (codes "n1")) both_paths).file_count
      ≡ sum (select counts both_paths))
    × ((node_buffer fs (λ d p k. false) results (node_of (codes "n1")) both_paths).success
        ≡ (not (is_empty both_paths) && all_some counts both_paths))
node_buffer_total_example =
    node_buffer_total fs (λ d p k. false) results (node_of (codes "n1")) both_paths
