-- ===== src/Buffer/ScanAll.antt =====
-- buffer.go: `ScanAllNodeBuffers`.
use directory_exporter.Common.{
  ℕ, ◌+◌, ◌==◌, Bool, true, false, ◌&&◌, ◌||◌, not, List, [], ◌∷◌, codes, Option, none, some, Bytes,
  if◌then◌else◌, is_empty, select, get, put, write_all,
}
use directory_exporter.Types.{DirMetrics, NodeBuffer, StreamNode}
use directory_exporter.Go.Os.{FileSystem}
use directory_exporter.Go.Strings.{join}
use directory_exporter.Go.FilePath.{clean}
use directory_exporter.Activity.Nodes.{detect_node_type, collector}
use directory_exporter.Activity.ScanAll.{typed_key, started}
use directory_exporter.Buffer.Count.{count_buffer_files}
use directory_exporter.Buffer.Resolve.{is_collector, resolve_node_buffer_paths}

-- The variables `total`, `okAll` and `anyOK`.
pub record Backlog : Type 0 where
  pub total : ℕ
  pub ok_all : Bool
  pub any_ok : Bool

-- The results of the directory scan by cleaned path.
unfoldable pub by_clean_path :
    List (Bytes × DirMetrics) → List (Bytes × DirMetrics) → List (Bytes × DirMetrics)
by_clean_path [] m = m
by_clean_path ((path, dm) ∷ results) m = by_clean_path results (put (clean path) dm m)

-- `ended` is the context as the goroutine of a node polls it while it counts a directory.
module _ (fs : FileSystem) (ended : Bytes → Bytes → ℕ → Bool)
    (cached : List (Bytes × DirMetrics)) where
  unfoldable pub count_path : Bytes → Bytes → Backlog → Backlog
  count_path node_dir p b =
      let counted = count_buffer_files fs (clean p) (ended node_dir p) in
      let fresh =
        if counted.1
        then record b { total = b.total + counted.0; any_ok = true }
        else record b { ok_all = false } in
      elim (get (clean p) cached) [
        | none ↦ fresh
        | some dm ↦
            if dm.scan_success == 1
            then record b { total = b.total + dm.file_count; any_ok = true }
            else fresh
      ]

  unfoldable pub count_paths : Bytes → List Bytes → Backlog → Backlog
  unfolding count_path
  count_paths node_dir [] b = b
  count_paths node_dir (p ∷ ps) b = count_paths node_dir ps (count_path node_dir p b)

  -- The node type: of the configuration, of the discovery, or detected again.
  unfoldable pub buffer_type : StreamNode → Bytes → Bytes
  buffer_type sn configured =
      if not (is_empty configured)
      then configured
      else if not (is_empty sn.node_type)
      then sn.node_type
      else detect_node_type fs sn.node_dir sn.node

  unfoldable pub node_buffer : StreamNode → List Bytes → NodeBuffer
  unfolding count_paths
  node_buffer sn paths =
      let b =
        count_paths sn.node_dir paths
          (record { total = 0; ok_all = not (is_empty paths); any_ok = false }) in
      record {
        base = sn.base;
        stream = sn.stream;
        node = sn.node;
        node_type = collector;
        buffer_path = if is_empty paths then codes "-" else join paths (b',' ∷ []);
        file_count = b.total;
        success = b.any_ok && b.ok_all;
      }

  -- What the goroutine of a node writes.
  unfoldable pub buffer_write : StreamNode → Option (Bytes × NodeBuffer)
  unfolding buffer_type node_buffer
  buffer_write sn =
      let resolved = resolve_node_buffer_paths fs sn.node_dir in
      if is_collector (buffer_type sn resolved.0)
      then some (typed_key sn.base sn.stream sn.node collector, node_buffer sn resolved.1)
      else none

-- A node that is known to be no collector is passed over.
abbrev pub may_collect : StreamNode → Bool
may_collect sn = is_empty sn.node_type || is_collector sn.node_type

module _ (fs : FileSystem) (ended : Bytes → Bytes → ℕ → Bool) where
  -- What the goroutine of a node writes, if one is started.
  unfoldable pub collector_write :
      List (Bytes × DirMetrics) → StreamNode → Option (Bytes × NodeBuffer)
  unfolding buffer_write
  collector_write cached sn = if may_collect sn then buffer_write fs ended cached sn else none

  -- `done` is the context as the loop over the nodes polls it.
  unfoldable pub scan_all_node_buffers :
      (ℕ → Bool) → List (Bytes × DirMetrics) → List StreamNode → List (Bytes × NodeBuffer)
  unfolding collector_write by_clean_path
  scan_all_node_buffers done results nodes =
      write_all (select (collector_write (by_clean_path results [])) (started done 0 nodes)) []
