-- ===== src/Metrics/Text.antt =====
-- metrics.go: `help`, `typ` and `lv`; the verbs `%d` and `%g` of package fmt.
use directory_exporter.Common.{
  ℕ, zero, suc, ◌+◌, ◌/◌, ◌%◌, ltb, ℤ, pos, negsuc, [], ◌∷◌, ◌++◌, Bytes, codes, if◌then◌else◌,
}
use directory_exporter.Go.Strings.{replace_byte}

-- The decimal digits of a number, at most `fuel` of them; a number has at most as many digits as
-- one more than its value.
unfoldable pub digits : ℕ → ℕ → Bytes
digits zero n = []
digits (suc fuel) n =
    let more = digits fuel (n / 10) in
    if ltb n 10 then (b'0' + n) ∷ [] else more ++ (b'0' + n % 10) ∷ []

-- `%d`
unfoldable pub decimal : ℤ → Bytes
unfolding digits
decimal (pos n) = digits (n + 1) n
decimal (negsuc n) = b'-' ∷ digits (n + 2) (n + 1)

abbrev pub line_end : ℕ
line_end = 10

unfoldable pub help : Bytes → Bytes → Bytes
help name text = codes "# HELP " ++ (name ++ (b' ' ∷ (text ++ line_end ∷ [])))

unfoldable pub typ : Bytes → Bytes → Bytes
typ name kind = codes "# TYPE " ++ (name ++ (b' ' ∷ (kind ++ line_end ∷ [])))

abbrev pub backslash : ℕ
backslash = 92

abbrev pub quote : ℕ
quote = 34

-- The three replacements of `lv`, in the order of the source.
unfoldable pub escape : Bytes → Bytes
escape s = replace_byte quote (backslash ∷ quote ∷ []) (
    replace_byte line_end (backslash ∷ b'n' ∷ [])
      (replace_byte backslash (backslash ∷ backslash ∷ []) s))

unfoldable pub lv : Bytes → Bytes
unfolding escape
lv s = quote ∷ (escape s ++ quote ∷ [])
