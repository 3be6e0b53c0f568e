-- ===== src/Go/Duration.antt =====
-- `time.ParseDuration`, in nanoseconds. A fraction is taken exactly and cut off, where Go computes it
-- in `float64`; digits of a fraction that Go drops as too many are kept.
use directory_exporter.Common.{
  ℕ, zero, suc, ◌+◌, ◌*◌, ◌/◌, ◌^◌, ℤ, pos, negsuc, leb, Bool, true, false, ◌&&◌, ◌||◌, not, [],
  codes, ◌==◌, eqb, length, ◌∷◌, Option, none, some, Bytes, if◌then◌else◌, is_empty, ◌≡◌, refl,
}
use directory_exporter.Go.Strconv.{is_digit, read_digits, signed}

-- The bytes up to the first that fails a test, and the rest.
unfoldable pub span : (ℕ → Bool) → Bytes → Bytes × Bytes
span test [] = ([], [])
span test (c ∷ s) = let (a, b) = span test s in if test c then (c ∷ a, b) else ([], c ∷ s)

abbrev in_unit : ℕ → Bool
in_unit c = not (c == b'.' || is_digit c)

-- The two spellings of micro begin with the bytes of U+00B5 and U+03BC.
unfoldable pub unit_of : Bytes → Option ℕ
unit_of u =
    if eqb u (codes "ns")
    then some 1
    else if eqb u (codes "us") || eqb u (194 ∷ 181 ∷ b's' ∷ []) || eqb u (206 ∷ 188 ∷ b's' ∷ [])
    then some 1000
    else if eqb u (codes "ms")
    then some 1000000
    else if eqb u (codes "s")
    then some 1000000000
    else if eqb u (codes "m")
    then some 60000000000
    else if eqb u (codes "h")
    then some 3600000000000
    else none

abbrev digits_value : Bytes → ℕ
digits_value ds = elim (read_digits 0 ds) [ none ↦ 0 | some n ↦ n ]

-- The digits behind a point, if there is one, and the rest.
unfoldable pub fraction : Bytes → Bytes × Bytes
unfolding span
fraction [] = ([], [])
fraction (c ∷ s) = if c == b'.' then span is_digit s else ([], c ∷ s)

-- One number with its unit: its value and the rest.
unfoldable pub duration_term : Bytes → Option (ℕ × Bytes)
unfolding span fraction unit_of read_digits
duration_term s =
    let (whole, s₁) = span is_digit s in
    let (frac, s₂) = fraction s₁ in
    let (unit_text, s₃) = span in_unit s₂ in
    if is_empty whole && is_empty frac then none else elim (unit_of unit_text) [
      | none ↦ none
      | some unit ↦
          let value = digits_value whole * unit + digits_value frac * unit / 10 ^ length frac in
          if leb value (2 ^ 63) then some (value, s₃) else none
    ]

-- The loop over the terms; each takes a byte at least, so the length is fuel enough.
unfoldable pub duration_terms : ℕ → ℕ → Bytes → Option ℕ
unfolding duration_term
duration_terms fuel total [] = some total
duration_terms zero total (_ ∷ _) = none
duration_terms (suc fuel) total (c ∷ s) = elim (duration_term (c ∷ s)) [
  | none ↦ none
  | some (value, rest) ↦
      if leb (total + value) (2 ^ 63) then duration_terms fuel (total + value) rest else none
]

unfoldable pub duration_magnitude : Bool → Bytes → Option ℤ
unfolding duration_terms signed
duration_magnitude negative s =
    if eqb s (codes "0")
    then some (pos 0)
    else if is_empty s
    then none
    else elim (duration_terms (length s) 0 s) [ none ↦ none | some n ↦ signed negative n ]

-- `none` stands for the error.
unfoldable pub parse_duration : Bytes → Option ℤ
unfolding duration_magnitude
parse_duration [] = none
parse_duration (c ∷ s) =
    if c == b'-'
    then duration_magnitude true s
    else if c == b'+'
    then duration_magnitude false s
    else duration_magnitude false (c ∷ s)

parse_durations :
    (parse_duration (codes "2m") ≡ some (pos 120000000000))
    × (parse_duration (codes "1h1.5s") ≡ some (pos 3601500000000))
    × (parse_duration (codes "-3ms") ≡ some (negsuc 2999999))
    × (parse_duration (codes "5") ≡ none)
    × (parse_duration (codes "0") ≡ some (pos 0))
unfolding parse_duration
parse_durations = (refl, refl, refl, refl, refl)
