-- ===== src/Activity/Nodes.antt =====
-- activity.go: `detectNodeType` and `DiscoverStreamNodes`; buffer.go: `quotedValueRegex`.
use directory_exporter.Common.{
  member, ℕ, Bool, ◌||◌, not, List, [], codes, ◌==◌, ◌∷◌, ◌++◌, Option, none, some, Bytes,
  if◌then◌else◌, is_empty,
}
use directory_exporter.Types.{Target, StreamNode}
use directory_exporter.Go.Os.{ok, err, FileSystem, DirEntry, is_dir_entry}
use directory_exporter.Go.Strings.{after_prefix, contains, has_prefix, to_lower}
use directory_exporter.Go.FilePath.{slash, clean, join_path, join_paths}

-- The bytes up to the next quote, if there is one.
unfoldable pub until_quote : Bytes → Option Bytes
until_quote [] = none
until_quote (c ∷ s) =
    let rest = until_quote s in
    if c == b'"' then some [] else elim rest [ none ↦ none | some v ↦ some (c ∷ v) ]

-- `([^"]+)"` at the beginning of a text.
unfoldable pub quoted : Bytes → Option Bytes
unfolding until_quote
quoted s = elim (until_quote s) [ none ↦ none | some v ↦ if is_empty v then none else some v ]

-- The group of the leftmost match of `"([^"]+)"`.
unfoldable pub quoted_value : Bytes → Option Bytes
unfolding quoted
quoted_value [] = none
quoted_value (c ∷ s) =
    let later = quoted_value s in
    if c == b'"' then elim (quoted s) [ none ↦ later | some v ↦ some v ] else later

-- `\s` of a regular expression: `\t \n \f \r` and the blank.
abbrev pub is_regex_space : ℕ → Bool
is_regex_space c = c == 9 || c == 10 || c == 12 || c == 13 || c == 32

-- `\s*"([^"]+)"` at the beginning of a text.
unfoldable pub spaced_quoted : Bytes → Option Bytes
unfolding quoted
spaced_quoted [] = none
spaced_quoted (c ∷ s) =
    let rest = spaced_quoted s in
    if is_regex_space c then rest else if c == b'"' then quoted s else none

-- `NodeType\s+"([^"]+)"` at the beginning of a text.
unfoldable pub node_type_at : Bytes → Option Bytes
unfolding spaced_quoted
node_type_at s = elim (after_prefix s (codes "NodeType")) [
  | none ↦ none
  | some [] ↦ none
  | some (c ∷ rest) ↦ if is_regex_space c then spaced_quoted rest else none
]

-- The group of the leftmost match of `nodeTypeRegex`.
unfoldable pub node_type_value : Bytes → Option Bytes
unfolding node_type_at
node_type_value [] = none
node_type_value (c ∷ s) =
    let later = node_type_value s in elim (node_type_at (c ∷ s)) [ none ↦ later | some v ↦ some v ]

abbrev pub collector : Bytes
collector = codes "collector"

abbrev pub distributor : Bytes
distributor = codes "distributor"

abbrev pub config_path : Bytes → Bytes
config_path node_dir = join_paths (node_dir ∷ codes "control" ∷ codes "1" ∷ codes "config" ∷ [])

abbrev pub audit_path : Bytes → Bytes
audit_path node_dir = join_paths (node_dir ∷ codes "storage" ∷ codes "1" ∷ codes "audit_info" ∷ [])

-- The kind that a lower-case text contains; the tests of the configured type and of the name agree,
-- since "collector" contains "col" and "distributor" contains "dis".
abbrev pub kind_in : Bytes → Option Bytes
kind_in t =
    if contains t collector || contains t (codes "col")
    then some collector
    else if contains t distributor || contains t (codes "dis")
    then some distributor
    else none

abbrev pub kind_of_name : Bytes → Bytes
kind_of_name t =
    if contains t (codes "col")
    then collector
    else if contains t (codes "dis")
    then distributor
    else []

-- `base + "/" + stream + "/" + node`
abbrev pub node_key : Bytes → Bytes → Bytes → Bytes
node_key base stream node = base ++ (slash ∷ (stream ++ (slash ∷ node)))

-- The variables `nodes` and `seen`.
pub record Nodes : Type 0 where
  pub nodes : List StreamNode
  pub seen : List Bytes

abbrev pub is_left_out : Bytes → Bool
is_left_out name = has_prefix name (codes "mail") || has_prefix name (codes "rap_import")

module _ (fs : FileSystem) where
  -- The kind that control/1/config names.
  unfoldable pub configured_kind : Bytes → Option Bytes
  unfolding node_type_value
  configured_kind node_dir = elim (fs.read_file (config_path node_dir)) [
    | err _ ↦ none
    | ok text ↦ elim (node_type_value text) [ none ↦ none | some v ↦ kind_in (to_lower v) ]
  ]

  unfoldable pub detect_node_type : Bytes → Bytes → Bytes
  unfolding configured_kind
  detect_node_type node_dir name = elim (configured_kind node_dir) [
    | some kind ↦ kind
    | none ↦ elim (fs.stat (audit_path node_dir)) [
      | ok _ ↦ collector
      | err _ ↦ kind_of_name (to_lower name)
    ]
  ]

  unfoldable pub note_node : Bytes → Bytes → Bytes → DirEntry → Nodes → Nodes
  unfolding detect_node_type
  note_node label stream nodes_dir e s =
      let key = node_key label stream e.name in
      let node_dir = join_path nodes_dir e.name in
      if not (is_dir_entry e) || is_left_out e.name || member key s.seen then s else record {
        nodes =
            s.nodes
            ++ record {
              base = label;
              stream = stream;
              node = e.name;
              node_dir = node_dir;
              node_type = detect_node_type node_dir e.name;
            }
              ∷ [];
        seen = key ∷ s.seen;
      }

  unfoldable pub note_nodes : Bytes → Bytes → Bytes → List DirEntry → Nodes → Nodes
  unfolding note_node
  note_nodes label stream nodes_dir [] s = s
  note_nodes label stream nodes_dir (e ∷ es) s =
      note_nodes label stream nodes_dir es (note_node label stream nodes_dir e s)

  -- The entries of the directory `nodes` of a stream, if it is a directory that can be read.
  unfoldable pub node_entries : Bytes → List DirEntry
  node_entries nodes_dir = elim (fs.stat nodes_dir) [
    | err _ ↦ []
    | ok info ↦ if info.is_dir then elim (fs.read_dir nodes_dir) [ err _ ↦ [] | ok es ↦ es ] else []
  ]

  unfoldable pub note_stream : Bytes → Bytes → DirEntry → Nodes → Nodes
  unfolding note_nodes node_entries
  note_stream base label e s =
      let nodes_dir = join_paths (base ∷ e.name ∷ codes "nodes" ∷ []) in
      if is_dir_entry e then note_nodes label e.name nodes_dir (node_entries nodes_dir) s else s

  unfoldable pub note_streams : Bytes → Bytes → List DirEntry → Nodes → Nodes
  unfolding note_stream
  note_streams base label [] s = s
  note_streams base label (e ∷ es) s = note_streams base label es (note_stream base label e s)

  unfoldable pub note_target : Target → Nodes → Nodes
  unfolding note_streams
  note_target t s =
      let base = clean t.base in
      let label = if is_empty t.label then base else t.label in
      elim (fs.read_dir base) [ err _ ↦ s | ok es ↦ note_streams base label es s ]

  unfoldable pub note_targets : List Target → Nodes → Nodes
  unfolding note_target
  note_targets [] s = s
  note_targets (t ∷ ts) s = note_targets ts (note_target t s)

  unfoldable pub discover_stream_nodes : List Target → List StreamNode
  unfolding note_targets
  discover_stream_nodes targets = (note_targets targets (record { nodes = []; seen = [] })).nodes
