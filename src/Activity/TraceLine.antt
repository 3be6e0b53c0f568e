-- ===== src/Activity/TraceLine.antt =====
-- activity.go: the lines that a distributor writes, as `parseDistributorLine` expects them.
pub mod Parts
pub mod Reading
use directory_exporter.Common.{
  Bool, true, false, ◌&&◌, [], ◌∷◌, ◌++◌, ◌==◌, leb, ℕ, none, Bytes, if◌then◌else◌, ◌≡◌, All,
  is_empty,
}
use directory_exporter.Go.Strings.{from_index}
use directory_exporter.Go.Words.{IsSolid, IsBreak}
use directory_exporter.Activity.Distributor.{mark}

-- The parts of a line: "20260902 103000.250 [dist_01].info: Distributed file OUT_001.dat to billing" has
-- the subseconds ".250", the level ".info: ", no colon behind the mark, and " to billing" at its end.
pub record TraceLine : Type 0 where
  pub date : Bytes
  pub hour_tens : ℕ
  pub hour : ℕ
  pub minute_tens : ℕ
  pub minute : ℕ
  pub second_tens : ℕ
  pub second : ℕ
  pub subseconds : Bytes
  pub dotted : Bool
  pub level : Bytes
  pub colon : Bool
  pub file : Bytes
  pub behind : Bytes

abbrev pub clock_digits : TraceLine → Bytes
clock_digits l = l.hour_tens ∷ l.hour ∷ l.minute_tens ∷ l.minute ∷ l.second_tens ∷ l.second ∷ []

-- The time as the first layout has it.
abbrev pub clock_text : TraceLine → Bytes
clock_text l =
    l.hour_tens ∷ l.hour ∷ b':' ∷ l.minute_tens ∷ l.minute ∷ b':' ∷ l.second_tens ∷ l.second ∷ []

abbrev pub node_text : Bytes → TraceLine → Bytes
node_text node l = b'[' ∷ (node ++ (if l.dotted then b'.' else b']') ∷ [])

abbrev pub line_front : Bytes → TraceLine → Bytes
line_front node l =
    l.date ++ (b' ' ∷ ((clock_digits l ++ l.subseconds) ++ (b' ' ∷ (node_text node l ++ l.level))))

abbrev pub line_end : TraceLine → Bytes
line_end l = if l.colon then b':' ∷ (b' ' ∷ (l.file ++ l.behind)) else b' ' ∷ (l.file ++ l.behind)

abbrev pub line_text : Bytes → TraceLine → Bytes
line_text node l = line_front node l ++ (mark ++ line_end l)

abbrev pub IsDigit : ℕ → Type 0
IsDigit c = (leb b'0' c && leb c b'9') ≡ true

-- Subseconds are empty or behind a dot.
abbrev pub IsFraction : Bytes → Type 0
IsFraction [] = Unit
IsFraction (c ∷ s) = (c == b'.') ≡ true

abbrev pub IsWord : Bytes → Type 0
IsWord w = (is_empty w ≡ false) × IsSolid w

abbrev pub starts_with_colon : Bytes → Bool
starts_with_colon [] = false
starts_with_colon (c ∷ s) = c == b':'

-- The date and the file are words, the file not one that starts with a colon, the time is six digits,
-- and the mark does not stand in front of its place.
pub record IsWritten (node : Bytes) (l : TraceLine) : Type 0 where
  pub date : IsWord l.date
  pub digits : All IsDigit (clock_digits l)
  pub fraction : IsFraction l.subseconds
  pub fraction_solid : IsSolid l.subseconds
  pub file : IsWord l.file
  pub file_start : starts_with_colon l.file ≡ false
  pub behind : IsBreak l.behind
  pub front : from_index (line_front node l) mark ≡ none
