-- ===== src/Watch/Prefix.antt =====
-- What the pruning test has to do with the match itself.
use directory_exporter.Common.{
  true, false, List, [], ◌==◌, ◌∷◌, ◌++◌, Bytes, if◌then◌else◌, length, length-append, is_empty,
  ◌≡◌, arith, refl, All,
}
use directory_exporter.Go.Os.{ok}
use directory_exporter.Go.Names.{IsName, joined, split-joined, trim-joined}
use directory_exporter.Watch.Pattern.{
  segments, match_segments, match_pattern, match_prefix_segments, match_pattern_prefix,
}

pub segments-joined :
    (p : Bytes) (ps : List Bytes) → All IsName (p ∷ ps) → segments (joined (p ∷ ps)) ≡ p ∷ ps
unfolding segments
segments-joined p ps hs = rw (trim-joined p ps hs) (split-joined p ps hs)

match_segments-prefix :
    (pats xs ys include : List Bytes)
    → length pats ≡ length (xs ++ ys)
    → match_segments pats (xs ++ ys) include ≡ ok true
    → match_prefix_segments pats xs include ≡ true
unfolding match_segments match_prefix_segments
match_segments-prefix pats [] ys include n h = refl
match_segments-prefix [] (x ∷ xs) ys include n h = refl
match_segments-prefix (pat ∷ pats) (x ∷ xs) ys include n h =
    ground (arith, match_segments-prefix pats xs ys include)

pub All-append-left : (xs ys : List Bytes) → All IsName (xs ++ ys) → All IsName xs
All-append-left [] ys h = tt
All-append-left (x ∷ xs) ys (h, hs) = (h, All-append-left xs ys hs)

-- The match of a path of names, over its names.
pub match_pattern-joined :
    (pattern : Bytes) (include : List Bytes) (p : Bytes) (ps : List Bytes)
    → All IsName (p ∷ ps)
    → match_pattern pattern (joined (p ∷ ps)) include ≡ (
        if is_empty pattern
        then ok true
        else if length (segments pattern) == length (p ∷ ps)
        then match_segments (segments pattern) (p ∷ ps) include
        else ok false)
unfolding match_pattern
match_pattern-joined pattern include p ps hs = rw (segments-joined p ps hs)

-- A relative path of names that matches the pattern has no beginning that the pruning test refuses,
-- so the search passes through all its parents.
pub match_pattern_prefix-parent :
    (pattern : Bytes) (include : List Bytes) (x : Bytes) (xs ys : List Bytes)
    → All IsName (x ∷ (xs ++ ys))
    → match_pattern pattern (joined (x ∷ (xs ++ ys))) include ≡ ok true
    → match_pattern_prefix pattern (joined (x ∷ xs)) include ≡ true
unfolding match_pattern_prefix
match_pattern_prefix-parent pattern include x xs ys hs h =
    rw (segments-joined x xs (All-append-left (x ∷ xs) ys hs)) (
      ground (
        arith,
        match_pattern-joined pattern include x (xs ++ ys) hs,
        match_segments-prefix (segments pattern) (x ∷ xs) ys include,
        length-append xs ys,
      ))
