-- ===== src/Buffer/Resolve.antt =====
-- buffer.go: `isCollector`, `extractSourceDirectory` and `resolveNodeBufferPaths`.
use directory_exporter.Common.{
  Bool, ◌&&◌, ◌||◌, not, List, [], ◌∷◌, ◌++◌, codes, ◌==◌, eqb, none, some, Bytes, if◌then◌else◌,
  is_empty,
}
use directory_exporter.Go.Os.{FileSystem, ok, err}
use directory_exporter.Go.Strings.{
  split, fields, contains, has_prefix, trim_prefix, trim_left, trim, trim_space, to_lower,
}
use directory_exporter.Activity.Nodes.{quoted_value, config_path}

unfoldable pub is_collector : Bytes → Bool
is_collector kind =
    let lower = to_lower (trim_space kind) in
    contains lower (codes "collector") || eqb lower (codes "col")

-- Without a quoted value the first word behind the key counts, without the quotes around it.
unfoldable pub extract_source_directory : Bytes → Bytes
extract_source_directory line = elim (quoted_value line) [
  | some v ↦ trim_space v
  | none ↦
      elim (fields (
        trim_left (λ c. c == b' ' || c == 9 || c == b':')
          (trim_prefix line (codes "SourceDirectory")))) [
            | [] ↦ []
            | word ∷ _ ↦ trim (λ c. c == b'"' || c == 39) word
          ]
]

-- The variables `nodeType` and `sourceDirs`.
pub record Settings : Type 0 where
  pub node_type : Bytes
  pub source_dirs : List Bytes

unfoldable pub note_type : Bytes → Settings → Settings
note_type line s = elim (quoted_value line) [ none ↦ s | some v ↦ record s { node_type = v } ]

unfoldable pub note_source : Bytes → Settings → Settings
unfolding extract_source_directory
note_source line s =
    let dir = extract_source_directory line in
    if is_empty dir then s else record s { source_dirs = s.source_dirs ++ dir ∷ [] }

-- One trimmed line.
unfoldable pub read_setting : Bytes → Settings → Settings
unfolding note_type note_source
read_setting line s =
    if is_empty line || has_prefix line (codes "#")
    then s
    else if has_prefix line (codes "NodeType")
    then note_type line s
    else if has_prefix line (codes "SourceDirectory")
    then note_source line s
    else s

unfoldable pub read_settings : List Bytes → Settings → Settings
unfolding read_setting
read_settings [] s = s
read_settings (l ∷ ls) s = read_settings ls (read_setting (trim_space l) s)

-- The node type and, for a node that may be a collector, the source directories.
unfoldable pub resolve_node_buffer_paths : FileSystem → Bytes → Bytes × List Bytes
unfolding is_collector read_settings
resolve_node_buffer_paths fs node_dir = elim (fs.read_file (config_path node_dir)) [
  | err _ ↦ ([], [])
  | ok text ↦
      let s = read_settings (split text 10) (record { node_type = []; source_dirs = [] }) in
      if not (is_empty s.node_type) && not (is_collector s.node_type)
      then (s.node_type, [])
      else (s.node_type, s.source_dirs)
]
