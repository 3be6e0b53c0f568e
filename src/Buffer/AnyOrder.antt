-- ===== src/Buffer/AnyOrder.antt =====
-- `ScanAllNodeBuffers` writes one entry for a node, and what it reuses of the directory scan.
use directory_exporter.Common.{
  ℕ, select, write_all, get, Reordered, Bool, List, [], some, Bytes, ◌≡◌, arith,
}
use directory_exporter.Types.{StreamNode, NodeBuffer, DirMetrics, Target}
use directory_exporter.Go.Os.{FileSystem}
use directory_exporter.Activity.Nodes.{discover_stream_nodes}
use directory_exporter.Activity.Keys.{discover_stream_nodes-Distinct}
use directory_exporter.Activity.ScanAll.{started}
use directory_exporter.Activity.Schedules.{IsTyped, any_order}
use directory_exporter.Buffer.ScanAll.{
  buffer_write, collector_write, scan_all_node_buffers, by_clean_path,
}

module _ (fs : FileSystem) (ended : Bytes → Bytes → ℕ → Bool) where
  collector_write-IsTyped :
      (cached : List (Bytes × DirMetrics)) (sn : StreamNode) (w : Bytes × NodeBuffer)
      → collector_write fs ended cached sn ≡ some w
      → IsTyped sn w.0
  unfolding collector_write buffer_write
  collector_write-IsTyped cached sn w h = ground arith

  -- For the nodes that the targets have, in whatever order the goroutines of the nodes that are
  -- started before the context ends write their entries, each key of the map of buffers holds the
  -- same in the end.
  pub scan_all_node_buffers-any_order :
      (targets : List Target) (done : ℕ → Bool) (results : List (Bytes × DirMetrics)) (k : Bytes)
      {ws : List (Bytes × NodeBuffer)}
      → Reordered
          (Bytes × NodeBuffer)
          (select
            (collector_write fs ended (by_clean_path results []))
            (started done 0 (discover_stream_nodes fs targets)))
          ws
      → get k (write_all ws [])
        ≡ get k (scan_all_node_buffers fs ended done results (discover_stream_nodes fs targets))
  unfolding scan_all_node_buffers
  scan_all_node_buffers-any_order targets done results k r =
      any_order (collector_write fs ended (by_clean_path results []))
        (collector_write-IsTyped (by_clean_path results [])) done (discover_stream_nodes fs targets)
        k (discover_stream_nodes-Distinct fs targets) r
