-- ===== src/Buffer/Settings/Reading.antt =====
-- buffer.go: `resolveNodeBufferPaths` reads a configuration as it is written.
use directory_exporter.Common.{
  append-nil, All-append, false, not, ◌&&◌, List, [], ◌∷◌, ◌++◌, append_assoc, codes, ℕ, some,
  Bytes, if◌then◌else◌, ◌≡◌, refl, sym, ap, ◌∙◌, All, inl, inr, arith, subst, is_empty, Bool-cases,
}
use directory_exporter.Go.Os.{FileSystem, ok}
use directory_exporter.Go.Strings.{split, is_space, has_prefix, after_prefix, trim_space}
use directory_exporter.Go.Words.{trim_space-solid, trim_space-solid_ends}
use directory_exporter.Activity.Nodes.{until_quote, quoted, quoted_value, config_path}
use directory_exporter.Buffer.Resolve.{
  Settings, is_collector, extract_source_directory, note_type, note_source, read_setting,
  read_settings, resolve_node_buffer_paths,
}
use directory_exporter.Buffer.Settings.{
  SettingLine, type_line, source_line, comment, blank, in_quotes, setting_text, config_text,
  last_type, sources, IsFree, IsValue, IsLine,
}

split_line : (d : ℕ) (n s : Bytes) → IsFree d n → split (n ++ d ∷ s) d ≡ n ∷ split s d
unfolding split
split_line d [] s h = ground arith
split_line d (c ∷ n) s (h, hs) = ground (arith, split_line d n s hs)

until_quote-value : (v s : Bytes) → IsFree b'"' v → until_quote (v ++ b'"' ∷ s) ≡ some v
unfolding until_quote
until_quote-value [] s h = refl
until_quote-value (c ∷ v) s (here, h) = rw (here, until_quote-value v s h) refl

quoted_value-in_quotes :
    (a v : Bytes) → IsFree b'"' a → IsValue v → quoted_value (a ++ in_quotes v) ≡ some v
unfolding quoted_value quoted
quoted_value-in_quotes [] v h (filled, free) = rw (until_quote-value v [] free) (rw filled refl)
quoted_value-in_quotes (c ∷ a) v (here, h) value = rw here (quoted_value-in_quotes a v h value)

type_key-IsFree : IsFree b'"' (codes "NodeType")
type_key-IsFree = ground arith

source_key-IsFree : IsFree b'"' (codes "SourceDirectory")
source_key-IsFree = ground arith

module _ (s : Settings) where
  read_setting-type_line :
      (gap v : Bytes)
      → IsFree b'"' gap
      → IsValue v
      → read_setting (setting_text (type_line gap v)) s ≡ record s { node_type = v }
  unfolding read_setting note_type has_prefix after_prefix
  read_setting-type_line gap v free value =
      let key = codes "NodeType" in
      let found =
        quoted_value-in_quotes (key ++ gap) v (All-append _ key gap type_key-IsFree free) value in
      rw (found, note_type) refl

  read_setting-source_line :
      (gap v : Bytes)
      → IsFree b'"' gap
      → IsValue v
      → trim_space v ≡ v
      → read_setting (setting_text (source_line gap v)) s
        ≡ record s { source_dirs = s.source_dirs ++ v ∷ [] }
  unfolding read_setting note_source extract_source_directory has_prefix after_prefix
  read_setting-source_line gap v free value ends =
      let key = codes "SourceDirectory" in
      let found =
        quoted_value-in_quotes (key ++ gap) v (All-append _ key gap source_key-IsFree free) value in
      rw (found, extract_source_directory, ends, value.0) refl

  read_setting-comment : (left : Bytes) → read_setting (b'#' ∷ left) s ≡ s
  unfolding read_setting has_prefix after_prefix
  read_setting-comment left = ground arith

quoted_end : (k gap v : Bytes) → k ++ (gap ++ in_quotes v) ≡ (k ++ (gap ++ (b'"' ∷ v))) ++ b'"' ∷ []
quoted_end k gap v = sym (
    append_assoc k (gap ++ (b'"' ∷ v)) (b'"' ∷ [])
    ∙ ap (λ r. k ++ r) (append_assoc gap (b'"' ∷ v) (b'"' ∷ [])))

trim_space-quoted :
    (c : ℕ) (k gap v : Bytes)
    → is_space c ≡ false
    → trim_space (c ∷ (k ++ (gap ++ in_quotes v))) ≡ c ∷ (k ++ (gap ++ in_quotes v))
trim_space-quoted c k gap v h =
    subst (λ r. trim_space (c ∷ r) ≡ c ∷ r) (sym (quoted_end k gap v))
      (trim_space-solid_ends c (k ++ (gap ++ (b'"' ∷ v))) b'"' h refl)

-- What is known after some lines.
abbrev pub settings_after : List SettingLine → Settings → Settings
settings_after ls s = record {
  node_type = last_type s.node_type ls;
  source_dirs = s.source_dirs ++ sources ls;
}

settings_blank : (s : Settings) → s ≡ settings_after [] s
settings_blank s =
    ap (λ r. record { node_type = s.node_type; source_dirs = r }) (sym (append-nil s.source_dirs))

read_setting-line :
    (l : SettingLine) (s : Settings)
    → IsLine l
    → read_setting (trim_space (setting_text l)) s ≡ settings_after (l ∷ []) s
unfolding read_setting trim_space
read_setting-line (type_line gap v) s (one, free, value) =
    ap (λ r. read_setting r s) (trim_space-quoted b'N' (codes "odeType") gap v refl)
    ∙ read_setting-type_line s gap v free value
    ∙ settings_blank (record s { node_type = v })
read_setting-line (source_line gap v) s (one, free, value, ends) =
    ap (λ r. read_setting r s) (trim_space-quoted b'S' (codes "ourceDirectory") gap v refl)
    ∙ read_setting-source_line s gap v free value ends
read_setting-line (comment t) s one =
    let (left, e, words) = trim_space-solid b'#' t refl in
    ap (λ r. read_setting r s) e ∙ read_setting-comment s left ∙ settings_blank s
read_setting-line blank s one = settings_blank s

settings_more :
    (l : SettingLine) (ls : List SettingLine) (s : Settings)
    → settings_after ls (settings_after (l ∷ []) s) ≡ settings_after (l ∷ ls) s
settings_more (type_line gap v) ls s =
    ap (λ r. record { node_type = last_type s.node_type ((type_line gap v) ∷ ls); source_dirs = r })
      (append_assoc s.source_dirs (sources ((type_line gap v) ∷ [])) (sources ls))
settings_more (source_line gap v) ls s =
    ap
      (λ r. record {
        node_type = last_type s.node_type ((source_line gap v) ∷ ls);
        source_dirs = r;
      })
      (append_assoc s.source_dirs (sources ((source_line gap v) ∷ [])) (sources ls))
settings_more (comment t) ls s =
    ap (λ r. record { node_type = last_type s.node_type ((comment t) ∷ ls); source_dirs = r })
      (append_assoc s.source_dirs (sources ((comment t) ∷ [])) (sources ls))
settings_more blank ls s =
    ap (λ r. record { node_type = last_type s.node_type (blank ∷ ls); source_dirs = r })
      (append_assoc s.source_dirs (sources (blank ∷ [])) (sources ls))

setting_text-IsFree : (l : SettingLine) → IsLine l → IsFree 10 (setting_text l)
setting_text-IsFree (type_line gap v) h = h.0
setting_text-IsFree (source_line gap v) h = h.0
setting_text-IsFree (comment t) h = h
setting_text-IsFree blank h = tt

read_settings-config_text :
    (ls : List SettingLine) (s : Settings)
    → All IsLine ls
    → read_settings (split (config_text ls) 10) s ≡ settings_after ls s
unfolding read_settings split trim_space
read_settings-config_text [] s h = settings_blank s
read_settings-config_text (l ∷ ls) s (here, h) =
    let rest = split (config_text ls) 10 in
    ap (λ r. read_settings r s)
      (split_line 10 (setting_text l) (config_text ls) (setting_text-IsFree l here))
    ∙ ap (λ r. read_settings rest r) (read_setting-line l s here)
    ∙ read_settings-config_text ls (settings_after (l ∷ []) s) h
    ∙ settings_more l ls s

-- A configuration is read as it is written. Where each line of the file holds a type in quotes, a
-- source directory in quotes, a comment or nothing, with no quote between a key and the quotes, where
-- the values are not empty and hold no quote, the directories have no white space at their ends, and
-- no part of a line holds a line end, the type of the node is that of the last line with a type, or
-- empty if there is none, and the directories are all that are written, in order, or none if the type
-- is not empty and not that of a collector.
pub resolve_node_buffer_paths-config_text :
    (fs : FileSystem) (node_dir : Bytes) (ls : List SettingLine)
    → All IsLine ls
    → fs.read_file (config_path node_dir) ≡ ok (config_text ls)
    → resolve_node_buffer_paths fs node_dir ≡ (
      last_type [] ls,
      (if not (is_empty (last_type [] ls)) && not (is_collector (last_type [] ls))
          then []
          else sources ls),
    )
unfolding resolve_node_buffer_paths
resolve_node_buffer_paths-config_text fs node_dir ls h file =
    let read = read_settings-config_text ls (record { node_type = []; source_dirs = [] }) h in
    let kind = last_type [] ls in
    rw (file, resolve_node_buffer_paths, read)
      (elim (Bool-cases (not (is_empty kind) && not (is_collector kind))) [
        | inl e ↦ rw e refl
        | inr e ↦ rw e refl
      ])
