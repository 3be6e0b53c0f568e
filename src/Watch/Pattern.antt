-- ===== src/Watch/Pattern.antt =====
-- `matchPattern`, `matchPatternPrefix` and `matchesInclude`.
use directory_exporter.Common.{
  Bool, true, false, ◌||◌, List, [], eqb, codes, ◌==◌, ltb, ◌∷◌, Bytes, if◌then◌else◌, length,
  is_empty,
}
use directory_exporter.Go.Os.{Result, ok, err}
use directory_exporter.Go.Strings.{split, trim}
use directory_exporter.Go.FilePath.{slash}
use directory_exporter.Go.Glob.{match}

-- `strings.Split(strings.Trim(filepath.ToSlash(p), "/"), "/")`
unfoldable pub segments : Bytes → List Bytes
segments p = split (trim (λ c. c == slash) p) slash

abbrev pub include_mark : Bytes
include_mark = codes "#include"

-- The error of `Match` is dropped.
abbrev matched : Result Bool → Bool
matched (ok b) = b
matched (err _) = false

unfoldable pub matches_include : Bytes → List Bytes → Bool
matches_include name [] = false
matches_include name (inc ∷ include) =
    eqb name inc || matched (match inc name) || matches_include name include

-- One round of the loops over the segments.
unfoldable pub match_segment : Bytes → Bytes → List Bytes → Result Bool
unfolding matches_include
match_segment pat part include =
    if eqb pat include_mark then ok (matches_include part include) else match pat part

-- The loop of `matchPattern`. Its lists are equally long.
unfoldable pub match_segments : List Bytes → List Bytes → List Bytes → Result Bool
match_segments [] parts include = ok true
match_segments (_ ∷ _) [] include = ok true
match_segments (pat ∷ pats) (part ∷ parts) include =
    let rest = match_segments pats parts include in
    elim (match_segment pat part include) [ err e ↦ err e | ok b ↦ if b then rest else ok false ]

unfoldable pub match_pattern : Bytes → Bytes → List Bytes → Result Bool
unfolding match_segments
match_pattern pattern rel_path include =
    if is_empty pattern
    then ok true
    else if length (segments pattern) == length (segments rel_path)
    then match_segments (segments pattern) (segments rel_path) include
    else ok false

-- The loop of `matchPatternPrefix`. The pattern is at least as long as the path.
unfoldable pub match_prefix_segments : List Bytes → List Bytes → List Bytes → Bool
match_prefix_segments pats [] include = true
match_prefix_segments [] (_ ∷ _) include = true
match_prefix_segments (pat ∷ pats) (part ∷ parts) include =
    let rest = match_prefix_segments pats parts include in
    elim (match_segment pat part include) [ err e ↦ false | ok b ↦ if b then rest else false ]

unfoldable pub match_pattern_prefix : Bytes → Bytes → List Bytes → Bool
unfolding match_prefix_segments
match_pattern_prefix pattern rel_path include =
    if is_empty pattern
    then true
    else if ltb (length (segments pattern)) (length (segments rel_path))
    then false
    else match_prefix_segments (segments pattern) (segments rel_path) include
