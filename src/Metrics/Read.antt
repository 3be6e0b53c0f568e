-- ===== src/Metrics/Read.antt =====
-- A reader of the text format that /metrics is written in: comments are passed over, and each other
-- line is a sample with its name, its labels and the text of its value.
pub mod Lines
pub mod Labels
use directory_exporter.Common.{
  ℕ, zero, suc, Bool, true, ◌&&◌, ◌||◌, ◌==◌, leb, List, [], ◌∷◌, ◌++◌, Option, none, some, Bytes,
  if◌then◌else◌, length,
}
use directory_exporter.Go.Strings.{split}
use directory_exporter.Metrics.Text.{line_end}
use directory_exporter.Metrics.Escape.{read_label}

pub record Sample : Type 0 where
  pub name : Bytes
  pub labels : List (Bytes × Bytes)
  pub value : Bytes

-- A letter, a digit, an underscore or a colon.
abbrev pub is_name_byte : ℕ → Bool
is_name_byte c =
    (leb b'a' c && leb c b'z')
    || ((leb b'A' c && leb c b'Z') || ((leb b'0' c && leb c b'9') || (c == b'_' || c == b':')))

-- The name that a text starts with, and what stands behind it.
unfoldable pub span_name : Bytes → Bytes × Bytes
span_name [] = ([], [])
span_name (c ∷ s) =
    let (name, rest) = span_name s in if is_name_byte c then (c ∷ name, rest) else ([], c ∷ s)

abbrev pub add {ℓ} : {A : Type ℓ} → A → Option (List A × Bytes) → Option (List A × Bytes)
add x none = none
add x (some (xs, rest)) = some (x ∷ xs, rest)

-- What may stand behind a key with its equals sign: a value, and a comma or the closing brace.
abbrev value_then :
    (Bytes → Option (List (Bytes × Bytes) × Bytes))
    → Bytes
    → Option (Bytes × Bytes)
    → Option (List (Bytes × Bytes) × Bytes)
value_then more key none = none
value_then more key (some (value, [])) = none
value_then more key (some (value, c ∷ s)) =
    if c == b'}'
    then some ((key, value) ∷ [], s)
    else if c == b','
    then add (key, value) (more s)
    else none

abbrev label_then :
    (Bytes → Option (List (Bytes × Bytes) × Bytes))
    → Bytes × Bytes
    → Option (List (Bytes × Bytes) × Bytes)
label_then more (key, []) = none
label_then more (key, c ∷ s) = if c == b'=' then value_then more key (read_label s) else none

-- The labels behind the opening brace, at most `fuel` of them, and the text behind the closing one.
unfoldable pub read_labels : ℕ → Bytes → Option (List (Bytes × Bytes) × Bytes)
read_labels zero s = none
read_labels (suc fuel) s = label_then (λ t. read_labels fuel t) (span_name s)

-- A space, and the value.
abbrev pub behind_labels : Bytes → List (Bytes × Bytes) → Bytes → Option Sample
behind_labels name labels [] = none
behind_labels name labels (c ∷ s) =
    if c == b' ' then some (record { name = name; labels = labels; value = s }) else none

abbrev pub with_labels : Bytes → Option (List (Bytes × Bytes) × Bytes) → Option Sample
with_labels name none = none
with_labels name (some (labels, rest)) = behind_labels name labels rest

abbrev pub behind_name : Bytes × Bytes → Option Sample
behind_name (name, []) = none
behind_name (name, c ∷ s) =
    if c == b'{' then with_labels name (read_labels (length s) s) else behind_labels name [] (c ∷ s)

unfoldable pub read_sample : Bytes → Option Sample
read_sample line = behind_name (span_name line)

abbrev pub is_comment : Bytes → Bool
is_comment [] = true
is_comment (c ∷ s) = c == b'#'

-- The samples in front of those of the lines behind, if these can be read.
abbrev pub and_then : List Sample → Option (List Sample) → Option (List Sample)
and_then xs none = none
and_then xs (some ys) = some (xs ++ ys)

abbrev pub one_sample : Option Sample → Option (List Sample) → Option (List Sample)
one_sample none rest = none
one_sample (some x) rest = and_then (x ∷ []) rest

unfoldable pub read_lines : List Bytes → Option (List Sample)
read_lines [] = some []
read_lines (line ∷ lines) =
    let rest = read_lines lines in
    if is_comment line then rest else one_sample (read_sample line) rest

unfoldable pub read_text : Bytes → Option (List Sample)
read_text s = read_lines (split s line_end)
