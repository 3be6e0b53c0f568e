-- ===== src/Activity/Written.antt =====
-- What the maps of results hold for a node, where no context ends before the last node is started.
use mathlib.Core.List.{Memᴰ}
use directory_exporter.Common.{
  ℕ, ℤ, member, Distinct, keys, select, select-none, select-some, write_all, get, get-write_all,
  Bool, true, false, List, [], ◌∷◌, map, Option, some, Bytes, ◌≡◌, inl, inr, arith, refl, sym, ap,
  ◌∙◌, subst, eqb, eqb_iff, eqb_refl, Bool-cases, Option-cases,
}
use directory_exporter.Types.{StreamNode, NodeActivity, Target}
use directory_exporter.Go.Os.{FileSystem}
use directory_exporter.Activity.Nodes.{discover_stream_nodes}
use directory_exporter.Activity.Delay.{Instant}
use directory_exporter.Activity.Distributor.{Clock}
use directory_exporter.Activity.Keys.{key_of, discover_stream_nodes-Distinct}
use directory_exporter.Activity.ScanAll.{
  typed_key, started, node_activity, activity_write, scan_all_node_activities,
}
use directory_exporter.Activity.AnyOrder.{activity_write-IsTyped}
use directory_exporter.Activity.Schedules.{IsTyped, typed_inj, Distinct-select, started-all}

get-member {ℓ} :
    {V : Type ℓ} (k : Bytes) (v : V) (m : List (Bytes × V))
    → get k m ≡ some v
    → member k (keys m) ≡ true
unfolding get member
get-member k v [] h = absurd (cc h)
get-member k v ((j, w) ∷ m) h = elim (Bool-cases (eqb k j)) [
  | inl here ↦ rw here refl
  | inr there ↦ rw there (get-member k v m (ground arith))
]

member-map {ℓ} :
    {A : Type ℓ} (key : A → Bytes) (x : A) (xs : List A)
    → Memᴰ x xs
    → member (key x) (map key xs) ≡ true
unfolding member
member-map key x [] m = elim m [ ]
member-map key x (y ∷ ys) (Memᴰ.head p) = rw (ap key (sym p)) (ground (arith, eqb_refl (key x)))
member-map key x (y ∷ ys) (Memᴰ.tail m) = ground (arith, member-map key x ys m)

module _ {ℓ} {V : Type ℓ} (write : StreamNode → Option (Bytes × V))
    (typed : (sn : StreamNode) (w : Bytes × V) → write sn ≡ some w → IsTyped sn w.0) where
  get-select :
      (sn : StreamNode) (k : Bytes) (v : V) (nodes : List StreamNode)
      → Distinct (map key_of nodes)
      → Memᴰ sn nodes
      → write sn ≡ some (k, v)
      → get k (select write nodes) ≡ some v
  unfolding get
  get-select sn k v [] h m p = elim m [ ]
  get-select sn k v (n ∷ ns) h (Memᴰ.head q) p =
      rw (select-some write n ns (k, v) (ap write (sym q) ∙ p), eqb_refl k) refl
  get-select sn k v (n ∷ ns) (new, h) (Memᴰ.tail m) p = elim (Option-cases (write n)) [
    | inl none_written ↦ rw (select-none write n ns none_written) (get-select sn k v ns h m p)
    | inr (w, q) ↦ elim (Bool-cases (eqb k w.0)) [
      | inl equal ↦
          let same_key : key_of sn ≡ key_of n =
            typed_inj sn n k (typed sn (k, v) p)
              (subst (IsTyped n) (sym ((eqb_iff k w.0).0 equal)) (typed n w q)) in
          absurd (ground (arith, member-map key_of sn ns m, same_key))
      | inr differ ↦ rw (select-some write n ns w q, differ) (get-select sn k v ns h m p)
    ]
  ]

  pub get-written :
      (done : ℕ → Bool) (sn : StreamNode) (k : Bytes) (v : V) (nodes : List StreamNode)
      → ((n : ℕ) → done n ≡ false)
      → Distinct (map key_of nodes)
      → Memᴰ sn nodes
      → write sn ≡ some (k, v)
      → get k (write_all (select write (started done 0 nodes)) []) ≡ some v
  get-written done sn k v nodes never h m p =
      let all_started = started-all key_of done 0 nodes never in
      let found = get-select sn k v nodes h m p in
      rw
        (
          all_started,
          get-write_all k (select write nodes) [] (Distinct-select write typed nodes h),
          get-member k v (select write nodes) found,
        )
        found

activity_write-some :
    (fs : FileSystem) (clock : Clock) (min_delay : ℤ) (now : Instant) (tracelog_dir : Bytes)
    (lookback_days : ℤ) (sn : StreamNode) (act : NodeActivity)
    → node_activity fs clock min_delay now tracelog_dir lookback_days sn ≡ some act
    → act.success ≡ true
    → activity_write fs clock min_delay now tracelog_dir lookback_days sn
      ≡ some (typed_key act.base act.stream act.node act.node_type, act)
unfolding activity_write
activity_write-some fs clock min_delay now tracelog_dir lookback_days sn act p success =
    ground arith

-- Where the context does not end before the last node is started, the map of activities holds the
-- activity of each discovered node that has one with success, under the key of the node and its kind.
pub scan_all_node_activities-written :
    (fs : FileSystem) (clock : Clock) (min_delay : ℤ) (now : Instant) (tracelog_dir : Bytes)
    (lookback_days : ℤ) (targets : List Target) (done : ℕ → Bool) (sn : StreamNode)
    (act : NodeActivity)
    → ((n : ℕ) → done n ≡ false)
    → Memᴰ sn (discover_stream_nodes fs targets)
    → node_activity fs clock min_delay now tracelog_dir lookback_days sn ≡ some act
    → act.success ≡ true
    → get (typed_key act.base act.stream act.node act.node_type) (
        scan_all_node_activities fs clock min_delay now tracelog_dir lookback_days done
          (discover_stream_nodes fs targets))
      ≡ some act
unfolding scan_all_node_activities
scan_all_node_activities-written fs clock min_delay now tracelog_dir lookback_days targets done sn
      act never m p success =
    get-written (activity_write fs clock min_delay now tracelog_dir lookback_days)
      (activity_write-IsTyped fs clock min_delay now tracelog_dir lookback_days) done sn _ act
      (discover_stream_nodes fs targets) never (discover_stream_nodes-Distinct fs targets) m
      (activity_write-some fs clock min_delay now tracelog_dir lookback_days sn act p success)
