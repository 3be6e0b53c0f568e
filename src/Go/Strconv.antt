-- ===== src/Go/Strconv.antt =====
-- `strconv.Atoi` and `strconv.ParseInt(s, 10, 64)`, `hex.EncodeToString`, and `strconv.Quote`, which is
-- the verb `%q`.
use directory_exporter.Common.{
  ℕ, ◌+◌, ◌*◌, ◌-◌, ◌/◌, ◌%◌, ◌^◌, ℤ, pos, negsuc, ltb, leb, Bool, true, false, ◌&&◌, [], codes,
  ◌==◌, ◌∷◌, ◌++◌, ◌||◌, Option, none, some, Bytes, if◌then◌else◌, is_empty, ◌≡◌, refl,
}

abbrev pub is_digit : ℕ → Bool
is_digit c = leb b'0' c && leb c b'9'

-- The number that digits spell behind `n`, if all bytes are digits.
unfoldable pub read_digits : ℕ → Bytes → Option ℕ
read_digits n [] = some n
read_digits n (c ∷ s) =
    let rest = read_digits (n * 10 + (c - b'0')) s in if is_digit c then rest else none

-- A magnitude with its sign, if that is an `int64`.
unfoldable pub signed : Bool → ℕ → Option ℤ
signed negative n =
    if negative
    then if leb n (2 ^ 63) then some (if n == 0 then pos 0 else negsuc (n - 1)) else none
    else if ltb n (2 ^ 63)
    then some (pos n)
    else none

unfoldable pub read_signed : Bool → Bytes → Option ℤ
unfolding read_digits signed
read_signed negative s =
    if is_empty s then none else elim (read_digits 0 s) [ none ↦ none | some n ↦ signed negative n ]

-- `none` stands for the error: a syntax error, or a value out of range.
unfoldable pub parse_int : Bytes → Option ℤ
unfolding read_signed
parse_int [] = none
parse_int (c ∷ s) =
    if c == b'-'
    then read_signed true s
    else if c == b'+'
    then read_signed false s
    else read_signed false (c ∷ s)

hex_digit : ℕ → ℕ
hex_digit d = if ltb d 10 then b'0' + d else b'a' + (d - 10)

-- The letters of `\a \b \t \n \v \f \r`, for the bytes from 7 on.
short_escape : ℕ → ℕ
short_escape c =
    if c == 7
    then b'a'
    else if c == 8
    then b'b'
    else if c == 9
    then b't'
    else if c == 10
    then b'n'
    else if c == 11
    then b'v'
    else if c == 12
    then b'f'
    else b'r'

unfoldable pub hex : Bytes → Bytes
unfolding hex_digit
hex [] = []
hex (b ∷ bs) = hex_digit (b / 16) ∷ hex_digit (b % 16) ∷ hex bs

-- What stands for one byte between the quotes of `%q`. A byte of 128 or more is taken for a part of a
-- character that can be printed.
quote_byte : ℕ → Bytes
unfolding hex_digit short_escape
quote_byte c =
    if c == 92 || c == 34
    then 92 ∷ c ∷ []
    else if leb 7 c && leb c 13
    then 92 ∷ short_escape c ∷ []
    else if ltb c 32 || c == 127
    then 92 ∷ b'x' ∷ hex_digit (c / 16) ∷ hex_digit (c % 16) ∷ []
    else c ∷ []

quote_bytes : Bytes → Bytes
unfolding quote_byte
quote_bytes [] = 34 ∷ []
quote_bytes (c ∷ s) = quote_byte c ++ quote_bytes s

unfoldable pub quote_text : Bytes → Bytes
unfolding quote_bytes
quote_text s = 34 ∷ quote_bytes s

quote_sample :
    quote_text (codes "a b" ++ (34 ∷ 10 ∷ 1 ∷ []))
    ≡ 34 ∷ (codes "a b" ++ (92 ∷ 34 ∷ 92 ∷ b'n' ∷ 92 ∷ (codes "x01" ++ 34 ∷ [])))
unfolding quote_text
quote_sample = refl

parse_numbers :
    (parse_int (codes "1700") ≡ some (pos 1700))
    × (parse_int (codes "-5") ≡ some (negsuc 4))
    × (parse_int (codes "12x") ≡ none)
    × (parse_int (codes "9223372036854775808") ≡ none)
unfolding parse_int
parse_numbers = (refl, refl, refl, refl)

hex_sample : hex (0 ∷ 171 ∷ []) ≡ codes "00ab"
unfolding hex
hex_sample = refl
