-- ===== src/Go/Glob.antt =====
-- `filepath.Match` on Unix, over bytes: the pattern is read into tokens first. It is malformed if
-- it ends in a backslash or inside a bracket, or if a bracket holds no range or a bad one.
use directory_exporter.Common.{
  is_empty, ℕ, Bool, true, false, ◌&&◌, ◌||◌, not, List, [], ◌∷◌, Bytes, codes, ◌==◌, leb, Option,
  none, some, if◌then◌else◌, ◌≡◌, refl,
}
use directory_exporter.Go.Os.{Result, ok, err}
use directory_exporter.Go.FilePath.{slash}

pub data Token : Type 0 where
  literal : ℕ → Token
  any_byte : Token
  any_run : Token
  class : Bool → List (ℕ × ℕ) → Token

-- Where the reader of a pattern stands. In a bracket it keeps the negation and the ranges so far.
pub data Mode : Type 0 where
  plain escaped opened : Mode
  range_start low_escaped : Bool → List (ℕ × ℕ) → Mode
  range_end high_start high_escaped : Bool → List (ℕ × ℕ) → ℕ → Mode

abbrev cons_token : Token → Option (List Token) → Option (List Token)
cons_token t none = none
cons_token t (some ts) = some (t ∷ ts)

unfoldable pub read_pattern : Mode → Bytes → Option (List Token)
read_pattern plain [] = some []
read_pattern (range_start _ _) [] = none
read_pattern _ [] = none
read_pattern plain (c ∷ s) =
    let after = λ (m : Mode). read_pattern m s in
    if c == b'*'
    then cons_token any_run (after plain)
    else if c == b'?'
    then cons_token any_byte (after plain)
    else if c == b'\\'
    then after escaped
    else if c == b'['
    then after opened
    else cons_token (literal c) (after plain)
read_pattern escaped (c ∷ s) = cons_token (literal c) (read_pattern plain s)
read_pattern opened (c ∷ s) =
    let after = λ (m : Mode). read_pattern m s in
    if c == b'^'
    then after (range_start true [])
    else if c == b'-' || c == b']'
    then none
    else if c == b'\\'
    then after (low_escaped false [])
    else after (range_end false [] c)
read_pattern (range_start neg rs) (c ∷ s) =
    let after = λ (m : Mode). read_pattern m s in
    if c == b']'
    then if is_empty rs then none else cons_token (class neg rs) (after plain)
    else if c == b'-'
    then none
    else if c == b'\\'
    then after (low_escaped neg rs)
    else after (range_end neg rs c)
read_pattern (low_escaped neg rs) (c ∷ s) = read_pattern (range_end neg rs c) s
read_pattern (range_end neg rs lo) (c ∷ s) =
    let after = λ (m : Mode). read_pattern m s in
    if c == b'-'
    then after (high_start neg rs lo)
    else if c == b']'
    then cons_token (class neg ((lo, lo) ∷ rs)) (after plain)
    else if c == b'\\'
    then after (low_escaped neg ((lo, lo) ∷ rs))
    else after (range_end neg ((lo, lo) ∷ rs) c)
read_pattern (high_start neg rs lo) (c ∷ s) =
    let after = λ (m : Mode). read_pattern m s in
    if c == b'-' || c == b']'
    then none
    else if c == b'\\'
    then after (high_escaped neg rs lo)
    else after (range_start neg ((lo, c) ∷ rs))
read_pattern (high_escaped neg rs lo) (c ∷ s) = read_pattern (range_start neg ((lo, c) ∷ rs)) s

unfoldable pub in_ranges : List (ℕ × ℕ) → ℕ → Bool
in_ranges [] c = false
in_ranges ((lo, hi) ∷ rs) c = (leb lo c && leb c hi) || in_ranges rs c

unfoldable pub token_matches : Token → ℕ → Bool
unfolding in_ranges
token_matches (literal d) c = c == d
token_matches any_byte c = not (c == slash)
token_matches any_run c = not (c == slash)
token_matches (class true rs) c = not (in_ranges rs c)
token_matches (class false rs) c = in_ranges rs c

-- `any_run` stands for any run of bytes without a slash; every other token for one byte.
unfoldable pub match_tokens : List Token → Bytes → Bool
unfolding token_matches
match_tokens [] [] = true
match_tokens [] (_ ∷ _) = false
match_tokens (any_run ∷ ts) [] = match_tokens ts []
match_tokens (any_run ∷ ts) (c ∷ s) = elim (match_tokens ts (c ∷ s)) [
  | true ↦ true
  | false ↦ elim (token_matches any_run c) [ true ↦ match_tokens (any_run ∷ ts) s | false ↦ false ]
]
match_tokens (t ∷ ts) [] = false
match_tokens (t ∷ ts) (c ∷ s) = elim (token_matches t c) [
  | true ↦ match_tokens ts s
  | false ↦ false
]

abbrev bad_pattern : Bytes
bad_pattern = codes "syntax error in pattern"

-- `filepath.Match(pattern, name)`.
unfoldable pub match : Bytes → Bytes → Result Bool
unfolding read_pattern match_tokens
match pattern name = elim (read_pattern plain pattern) [
  | none ↦ err bad_pattern
  | some ts ↦ ok (match_tokens ts name)
]

star_matches : match (codes "ab*d?") (codes "abccdd") ≡ ok true
unfolding match
star_matches = refl

star_stops : match (codes "a*d") (codes "a/d") ≡ ok false
unfolding match
star_stops = refl

class_matches : match (codes "[a-c][^x]\\*") (codes "by*") ≡ ok true
unfolding match
class_matches = refl

malformed : match (codes "x[a-") (codes "y") ≡ err bad_pattern
unfolding match
malformed = refl
