-- ===== src/Watch/Targets.antt =====
-- `discoverTargets`, `discoverTarget` and `resolveExplicitDirs`.
use directory_exporter.Common.{
  member, ℤ, pos, ltb_ℤ, Bool, ◌||◌, not, List, [], codes, ◌==◌, ◌∷◌, ◌++◌, Option, none, some,
  Bytes, Error, if◌then◌else◌, length, is_empty,
}
use directory_exporter.Go.Strconv.{quote_text}
use directory_exporter.Types.{Target, DirLabels, WatchEntry}
use directory_exporter.Go.Os.{ok, err, FileSystem}
use directory_exporter.Go.Strings.{split, join, trim, replace_all}
use directory_exporter.Go.FilePath.{slash, clean, join_path}
use directory_exporter.Go.Glob.{match}
use directory_exporter.Watch.Pattern.{include_mark}
use directory_exporter.Watch.Walk.{first_part, later_parts, discover_directories}

-- The labels of an explicit directory; a path of one part has the type "".
unfoldable pub explicit_labels : Bytes → Bytes → DirLabels
explicit_labels label rel =
    let parts = split rel slash in
    record { base = label; stream = first_part parts; kind = join (later_parts parts) (slash ∷ []) }

unfoldable pub explicit_entry : Bytes → Bytes → Bytes → WatchEntry
unfolding explicit_labels
explicit_entry base label rel = record {
  abs_path = join_path base rel;
  labels = explicit_labels label rel;
}

-- The loop of `resolveExplicitDirs`; `seen` holds the keys of the map.
unfoldable pub resolve_from : Bytes → Bytes → List Bytes → List Bytes → List WatchEntry
resolve_from base label seen [] = []
resolve_from base label seen (d ∷ dirs) =
    let rel = clean d in
    let skip = resolve_from base label seen dirs in
    let rest = resolve_from base label (rel ∷ seen) dirs in
    if member rel seen then skip else explicit_entry base label rel ∷ rest

unfoldable pub resolve_explicit_dirs : Bytes → Bytes → List Bytes → List WatchEntry
unfolding resolve_from
resolve_explicit_dirs base label dirs = resolve_from base label [] dirs

-- The depth that is searched where none is configured.
unfoldable pub default_depth : Bytes → ℤ
default_depth pattern =
    let clean_pat = trim (λ c. c == slash) pattern in
    if is_empty pattern
    then pos 1
    else if is_empty clean_pat
    then pos 1
    else pos (length (split clean_pat slash))

abbrev pub is_zero : ℤ → Bool
is_zero z = not (ltb_ℤ z (pos 0) || ltb_ℤ (pos 0) z)

-- Whether the error of `Match` on the test name refuses a pattern.
abbrev pub pattern_error : Bytes → Option Error
pattern_error pattern =
    if is_empty pattern
    then none
    else elim (match (replace_all pattern include_mark (codes "dummy")) (codes "test")) [
      | err e ↦ some (codes "invalid pattern " ++ (quote_text pattern ++ (codes ": " ++ e)))
      | ok _ ↦ none
    ]

unfoldable pub discover_target : FileSystem → Target → List WatchEntry × Option Error
unfolding default_depth
discover_target fs t =
    let base = clean t.base in
    let label = if is_empty t.label then base else t.label in
    let max_depth = if is_zero t.max_depth then default_depth t.pattern else t.max_depth in
    if not (is_empty t.dirs)
    then (resolve_explicit_dirs base label t.dirs, none)
    else elim (pattern_error t.pattern) [
      | some e ↦ ([], some e)
      | none ↦ discover_directories fs label t.pattern t.include base max_depth
    ]

-- The loop of `discoverTargets` over the entries and the first error so far.
unfoldable pub discover_from :
    FileSystem → List Target → List WatchEntry → Option Error → List WatchEntry × Option Error
discover_from fs [] all first_err = (all, first_err)
discover_from fs (t ∷ targets) all first_err =
    let (entries, e) = discover_target fs t in
    discover_from fs targets (all ++ entries) (elim first_err [ none ↦ e | some f ↦ some f ])

unfoldable pub discover_targets : FileSystem → List Target → List WatchEntry × Option Error
unfolding discover_from
discover_targets fs targets = discover_from fs targets [] none
