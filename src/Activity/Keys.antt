-- ===== src/Activity/Keys.antt =====
-- The nodes that `DiscoverStreamNodes` returns have distinct keys.
use directory_exporter.Common.{
  member, Distinct, false, ◌||◌, not, List, [], ◌∷◌, ◌++◌, map, Bytes, codes, ◌≡◌, inl, inr, arith,
  refl, sym, ap, ◌∙◌, eqb_iff, Bool-cases,
}
use directory_exporter.Types.{Target, StreamNode}
use directory_exporter.Go.Os.{FileSystem, DirEntry, Result-cases, is_dir_entry}
use directory_exporter.Go.FilePath.{clean, join_paths}
use directory_exporter.Activity.Nodes.{
  Nodes, node_key, note_node, note_nodes, note_stream, note_streams, note_target, note_targets,
  node_entries, is_left_out, discover_stream_nodes,
}

abbrev pub key_of : StreamNode → Bytes
key_of sn = node_key sn.base sn.stream sn.node

member-append :
    (k : Bytes) (xs ys : List Bytes) → member k (xs ++ ys) ≡ (member k xs || member k ys)
unfolding member
member-append k [] ys = refl
member-append k (x ∷ xs) ys = ground (arith, member-append k xs ys)

Distinct-append :
    (xs : List Bytes) (k : Bytes) → Distinct xs → member k xs ≡ false → Distinct (xs ++ k ∷ [])
unfolding member
Distinct-append [] k h new = (refl, tt)
Distinct-append (x ∷ xs) k (old, h) new = (
  ground (arith, member-append x xs (k ∷ []), eqb_iff x k, eqb_iff k x),
  Distinct-append xs k h (ground arith),
)

map-append {ℓ} :
    {A : Type ℓ} (f : A → Bytes) (xs ys : List A) → map f (xs ++ ys) ≡ map f xs ++ map f ys
map-append f [] ys = refl
map-append f (x ∷ xs) ys = ap (λ zs. f x ∷ zs) (map-append f xs ys)

-- The set `seen` holds the keys of the nodes, which are distinct.
record IsKeyed (s : Nodes) : Type 0 where
  distinct : Distinct (map key_of s.nodes)
  recorded : (k : Bytes) → member k s.seen ≡ member k (map key_of s.nodes)

added-IsKeyed :
    (s : Nodes) (sn : StreamNode)
    → IsKeyed s
    → member (key_of sn) s.seen ≡ false
    → IsKeyed (record { nodes = s.nodes ++ sn ∷ []; seen = key_of sn ∷ s.seen })
unfolding member
added-IsKeyed s sn h new = record {
  distinct =
      rw (map-append key_of s.nodes (sn ∷ []))
        (Distinct-append _ _ h.distinct (sym (h.recorded (key_of sn)) ∙ new));
  recorded = λ k.
      rw (map-append key_of s.nodes (sn ∷ []))
        (ground (arith, h.recorded k, member-append k (map key_of s.nodes) (key_of sn ∷ [])));
}

module _ (fs : FileSystem) where
  note_node-IsKeyed :
      (label stream nodes_dir : Bytes) (e : DirEntry) (s : Nodes)
      → IsKeyed s
      → IsKeyed (note_node fs label stream nodes_dir e s)
  unfolding note_node
  note_node-IsKeyed label stream nodes_dir e s h =
      elim (Bool-cases (
        not (is_dir_entry e)
        || is_left_out e.name
        || member (node_key label stream e.name) s.seen)) [
          | inl skip ↦ rw skip h
          | inr add ↦ rw add (added-IsKeyed s _ h (ground arith))
        ]

  note_nodes-IsKeyed :
      (label stream nodes_dir : Bytes) (es : List DirEntry) (s : Nodes)
      → IsKeyed s
      → IsKeyed (note_nodes fs label stream nodes_dir es s)
  unfolding note_nodes
  note_nodes-IsKeyed label stream nodes_dir [] s h = h
  note_nodes-IsKeyed label stream nodes_dir (e ∷ es) s h =
      note_nodes-IsKeyed label stream nodes_dir es _
        (note_node-IsKeyed label stream nodes_dir e s h)

  note_stream-IsKeyed :
      (base label : Bytes) (e : DirEntry) (s : Nodes)
      → IsKeyed s
      → IsKeyed (note_stream fs base label e s)
  unfolding note_stream
  note_stream-IsKeyed base label e s h =
      let nodes_dir = join_paths (base ∷ e.name ∷ codes "nodes" ∷ []) in
      elim (Bool-cases (is_dir_entry e)) [
        | inl dir ↦
            rw dir (note_nodes-IsKeyed label e.name nodes_dir (node_entries fs nodes_dir) s h)
        | inr skip ↦ rw skip h
      ]

  note_streams-IsKeyed :
      (base label : Bytes) (es : List DirEntry) (s : Nodes)
      → IsKeyed s
      → IsKeyed (note_streams fs base label es s)
  unfolding note_streams
  note_streams-IsKeyed base label [] s h = h
  note_streams-IsKeyed base label (e ∷ es) s h =
      note_streams-IsKeyed base label es _ (note_stream-IsKeyed base label e s h)

  note_target-IsKeyed : (t : Target) (s : Nodes) → IsKeyed s → IsKeyed (note_target fs t s)
  unfolding note_target
  note_target-IsKeyed t s h = elim (Result-cases (fs.read_dir (clean t.base))) [
    | inl (_, p) ↦ rw (p, note_target) h
    | inr (es, p) ↦ rw (p, note_target) (note_streams-IsKeyed _ _ es s h)
  ]

  note_targets-IsKeyed : (ts : List Target) (s : Nodes) → IsKeyed s → IsKeyed (note_targets fs ts s)
  unfolding note_targets
  note_targets-IsKeyed [] s h = h
  note_targets-IsKeyed (t ∷ ts) s h = note_targets-IsKeyed ts _ (note_target-IsKeyed t s h)

  -- Whatever the targets and the file system, no two discovered nodes have the same base, stream and
  -- node name as a key.
  pub discover_stream_nodes-Distinct :
      (targets : List Target) → Distinct (map key_of (discover_stream_nodes fs targets))
  unfolding discover_stream_nodes member
  discover_stream_nodes-Distinct targets =
      (note_targets-IsKeyed targets _ (record { distinct = tt; recorded = λ k. refl })).distinct
