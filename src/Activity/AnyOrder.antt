-- ===== src/Activity/AnyOrder.antt =====
-- `ScanAllNodeActivities` writes one entry for a node, under a key that no other node has.
use directory_exporter.Common.{
  ℕ, ℤ, select, write_all, get, Reordered, Bool, List, [], ◌∷◌, some, Bytes, ◌≡◌, ◌⊎◌, inl, inr,
  arith, refl, subst, Option-cases,
}
use directory_exporter.Types.{StreamNode, NodeActivity, Target}
use directory_exporter.Go.Os.{FileSystem, Result-cases}
use directory_exporter.Activity.Nodes.{collector, distributor, discover_stream_nodes, audit_path}
use directory_exporter.Activity.Delay.{Instant}
use directory_exporter.Activity.Collector.{collector_fields, scan_collector_activity}
use directory_exporter.Activity.Distributor.{Clock, scan_distributor_activity}
use directory_exporter.Activity.Keys.{discover_stream_nodes-Distinct}
use directory_exporter.Activity.ScanAll.{
  typed_key, started, collected, distributed, node_activity, activity_write,
  scan_all_node_activities,
}
use directory_exporter.Activity.Schedules.{IsTyped, any_order}

-- An activity has the names of its node, and one of the two kinds.
pub record IsOf (sn : StreamNode) (act : NodeActivity) : Type 0 where
  pub base : act.base ≡ sn.base
  pub stream : act.stream ≡ sn.stream
  pub node : act.node ≡ sn.node
  pub kind : (act.node_type ≡ collector) ⊎ (act.node_type ≡ distributor)

module _ (fs : FileSystem) (clock : Clock) (min_delay : ℤ) (now : Instant) (tracelog_dir : Bytes)
    (lookback_days : ℤ) where
  fields-IsOf :
      (sn : StreamNode) (words : List Bytes)
      → IsOf sn (collector_fields fs min_delay now sn words).0
  unfolding collector_fields
  fields-IsOf sn [] = ground arith
  fields-IsOf sn (w ∷ []) = ground arith
  fields-IsOf sn (w ∷ v ∷ words) = ground arith

  collector-IsOf : (sn : StreamNode) → IsOf sn (scan_collector_activity fs min_delay now sn).0
  unfolding scan_collector_activity
  collector-IsOf sn = elim (Result-cases (fs.read_file (audit_path sn.node_dir))) [
    | inl (e, p) ↦ rw (p, scan_collector_activity) (ground arith)
    | inr (text, p) ↦ rw (p, scan_collector_activity) (fields-IsOf sn _)
  ]

  distributor-IsOf :
      (sn : StreamNode)
      → IsOf sn (scan_distributor_activity fs clock min_delay now tracelog_dir lookback_days sn)
  unfolding scan_distributor_activity
  distributor-IsOf sn = ground arith

  pub node_activity-IsOf :
      (sn : StreamNode) (act : NodeActivity)
      → node_activity fs clock min_delay now tracelog_dir lookback_days sn ≡ some act
      → IsOf sn act
  unfolding node_activity collected distributed
  node_activity-IsOf sn act h = ground (arith, collector-IsOf sn, distributor-IsOf sn)

  IsOf-IsTyped :
      (sn : StreamNode) (act : NodeActivity)
      → IsOf sn act
      → IsTyped sn (typed_key act.base act.stream act.node act.node_type)
  IsOf-IsTyped sn act h = elim (h.kind) [
    | inl p ↦ inl (rw (h.base, h.stream, h.node, p) refl)
    | inr p ↦ inr (rw (h.base, h.stream, h.node, p) refl)
  ]

  pub activity_write-IsTyped :
      (sn : StreamNode) (w : Bytes × NodeActivity)
      → activity_write fs clock min_delay now tracelog_dir lookback_days sn ≡ some w
      → IsTyped sn w.0
  unfolding activity_write
  activity_write-IsTyped sn w h =
      elim (Option-cases (node_activity fs clock min_delay now tracelog_dir lookback_days sn)) [
        | inl p ↦ absurd (ground arith)
        | inr (act, p) ↦
            subst (IsTyped sn) (ground arith) (IsOf-IsTyped sn act (node_activity-IsOf sn act p))
      ]

  -- For the nodes that the targets have, in whatever order the goroutines of the nodes that are
  -- started before the context ends write their entries, each key of the map of activities holds the
  -- same in the end.
  pub scan_all_node_activities-any_order :
      (targets : List Target) (done : ℕ → Bool) (k : Bytes) {ws : List (Bytes × NodeActivity)}
      → Reordered
          (Bytes × NodeActivity)
          (select
            (activity_write fs clock min_delay now tracelog_dir lookback_days)
            (started done 0 (discover_stream_nodes fs targets)))
          ws
      → get k (write_all ws [])
        ≡ get k (
            scan_all_node_activities fs clock min_delay now tracelog_dir lookback_days done
              (discover_stream_nodes fs targets))
  unfolding scan_all_node_activities
  scan_all_node_activities-any_order targets done k r =
      any_order (activity_write fs clock min_delay now tracelog_dir lookback_days)
        activity_write-IsTyped done (discover_stream_nodes fs targets) k
        (discover_stream_nodes-Distinct fs targets) r
