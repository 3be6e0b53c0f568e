-- ===== src/Metrics/Escape.antt =====
-- A label value that `lv` writes can be read back.
use directory_exporter.Common.{
  ℕ, Bool, true, false, [], ◌∷◌, ◌++◌, Bytes, ◌==◌, Option, none, some, if◌then◌else◌, ◌≡◌, arith,
  refl, append_assoc,
}
use directory_exporter.Go.Strings.{replace_byte}
use directory_exporter.Metrics.Text.{escape, lv, backslash, quote, line_end}

abbrev add_byte : ℕ → Option (Bytes × Bytes) → Option (Bytes × Bytes)
add_byte c none = none
add_byte c (some (value, rest)) = some (c ∷ value, rest)

-- How a reader of the text format takes a label value behind its opening quote: the value and the
-- text behind the closing quote. The flag says whether a backslash came before.
unfoldable pub read_value : Bool → Bytes → Option (Bytes × Bytes)
read_value escaped [] = none
read_value true (c ∷ s) =
    let rest = read_value false s in
    if c == backslash
    then add_byte backslash rest
    else if c == b'n'
    then add_byte line_end rest
    else if c == quote
    then add_byte quote rest
    else none
read_value false (c ∷ s) =
    let rest = read_value false s in
    let next = read_value true s in
    if c == quote
    then some ([], s)
    else if c == backslash
    then next
    else if c == line_end
    then none
    else add_byte c rest

unfoldable pub read_label : Bytes → Option (Bytes × Bytes)
unfolding read_value
read_label [] = none
read_label (c ∷ s) = let value = read_value false s in if c == quote then value else none

-- What `lv` writes for one byte.
unfoldable pub escape_byte : ℕ → Bytes
escape_byte c =
    if c == backslash
    then backslash ∷ backslash ∷ []
    else if c == line_end
    then backslash ∷ b'n' ∷ []
    else if c == quote
    then backslash ∷ quote ∷ []
    else c ∷ []

pub escape-cons : (c : ℕ) (s : Bytes) → escape (c ∷ s) ≡ escape_byte c ++ escape s
unfolding escape escape_byte replace_byte
escape-cons c s = ground arith

value_step :
    (c : ℕ) (t : Bytes) → read_value false (escape_byte c ++ t) ≡ add_byte c (read_value false t)
unfolding read_value escape_byte
value_step c t = ground arith

read_value-escape :
    (s rest : Bytes) → read_value false (escape s ++ (quote ∷ rest)) ≡ some (s, rest)
unfolding escape replace_byte read_value
read_value-escape [] rest = refl
read_value-escape (c ∷ s) rest =
    rw
      (
        escape-cons c s,
        append_assoc (escape_byte c) (escape s) (quote ∷ rest),
        value_step c (escape s ++ (quote ∷ rest)),
        read_value-escape s rest,
      )
      refl

-- A reader that undoes the escapes of the text format gets from the output of `lv`, whatever stands
-- behind it, the string that `lv` was given, and the text behind.
pub read_label-lv : (s rest : Bytes) → read_label (lv s ++ rest) ≡ some (s, rest)
unfolding read_label lv
read_label-lv s rest = rw (append_assoc (escape s) (quote ∷ []) rest) (read_value-escape s rest)
