-- ===== src/Activity/ScanAll.antt =====
-- activity.go: `ScanAllNodeActivities`. Each node's goroutine writes at most one entry of the map; the
-- semaphore bounds how many run at a time.
use directory_exporter.Common.{
  ℕ, ◌+◌, ℤ, Bool, List, [], ◌∷◌, ◌++◌, Option, none, some, Bytes, if◌then◌else◌, is_empty, eqb,
  select, write_all,
}
use directory_exporter.Types.{NodeActivity, StreamNode}
use directory_exporter.Go.Os.{ok, err, FileSystem}
use directory_exporter.Go.FilePath.{slash}
use directory_exporter.Activity.Nodes.{node_key, audit_path, collector, distributor}
use directory_exporter.Activity.Delay.{Instant}
use directory_exporter.Activity.Collector.{scan_collector_activity}
use directory_exporter.Activity.Distributor.{Clock, scan_distributor_activity}

-- `base + "/" + stream + "/" + node + "/" + nodeType`
abbrev pub typed_key : Bytes → Bytes → Bytes → Bytes → Bytes
typed_key base stream node kind = node_key base stream node ++ (slash ∷ kind)

-- The nodes that are started before the context ends; it is polled before each.
unfoldable pub started {ℓ} : {A : Type ℓ} → (ℕ → Bool) → ℕ → List A → List A
started done k [] = []
started done k (x ∷ xs) = let rest = started done (k + 1) xs in if done k then [] else x ∷ rest

module _ (fs : FileSystem) (clock : Clock) (min_delay : ℤ) (now : Instant) (tracelog_dir : Bytes)
    (lookback_days : ℤ) where
  -- The activity of a node without an error, if one is looked for.
  unfoldable pub collected : StreamNode → Option NodeActivity
  unfolding scan_collector_activity
  collected sn =
      let (act, error) = scan_collector_activity fs min_delay now sn in
      elim error [ none ↦ some act | some _ ↦ none ]

  unfoldable pub distributed : StreamNode → Option NodeActivity
  unfolding scan_distributor_activity
  distributed sn =
      some (scan_distributor_activity fs clock min_delay now tracelog_dir lookback_days sn)

  unfoldable pub node_activity : StreamNode → Option NodeActivity
  unfolding collected distributed
  node_activity sn =
      if eqb sn.node_type collector
      then collected sn
      else if eqb sn.node_type distributor
      then distributed sn
      else elim (fs.stat (audit_path sn.node_dir)) [
        | ok _ ↦ collected sn
        | err _ ↦ if is_empty tracelog_dir then none else distributed sn
      ]

  -- What the goroutine of a node writes.
  unfoldable pub activity_write : StreamNode → Option (Bytes × NodeActivity)
  unfolding node_activity
  activity_write sn = elim (node_activity sn) [
    | none ↦ none
    | some act ↦
        if act.success
        then some (typed_key act.base act.stream act.node act.node_type, act)
        else none
  ]

  unfoldable pub scan_all_node_activities :
      (ℕ → Bool) → List StreamNode → List (Bytes × NodeActivity)
  unfolding activity_write started
  scan_all_node_activities done nodes = write_all (select activity_write (started done 0 nodes)) []
