-- ===== src/Go/Strings.antt =====
-- The functions of package strings that the program calls, on strings as lists of bytes. A
-- separator is one byte, as at every call.
use mathlib.Core.List.{reverse}
use directory_exporter.Common.{
  ◌-◌, zero, suc, length, ℕ, Bool, true, false, ◌&&◌, ◌||◌, List, [], ◌∷◌, ◌++◌, map, Bytes, ◌==◌,
  leb, ◌+◌, Option, none, some, if◌then◌else◌,
}

-- Puts a byte in front of the first part.
abbrev pub cons_first : ℕ → List Bytes → List Bytes
cons_first c [] = (c ∷ []) ∷ []
cons_first c (p ∷ ps) = (c ∷ p) ∷ ps

-- `strings.Split`.
unfoldable pub split : Bytes → ℕ → List Bytes
split [] sep = [] ∷ []
split (c ∷ s) sep = let rest = split s sep in if c == sep then [] ∷ rest else cons_first c rest

-- `strings.Join`.
unfoldable pub join : List Bytes → Bytes → Bytes
join [] sep = []
join (p ∷ []) sep = p
join (p ∷ q ∷ ps) sep = p ++ (sep ++ join (q ∷ ps) sep)

-- `strings.HasPrefix` and `strings.TrimPrefix`: what is left behind the prefix.
unfoldable pub after_prefix : Bytes → Bytes → Option Bytes
after_prefix s [] = some s
after_prefix [] (_ ∷ _) = none
after_prefix (c ∷ s) (d ∷ p) = let rest = after_prefix s p in if c == d then rest else none

unfoldable pub has_prefix : Bytes → Bytes → Bool
unfolding after_prefix
has_prefix s p = elim (after_prefix s p) [ none ↦ false | some _ ↦ true ]

unfoldable pub trim_prefix : Bytes → Bytes → Bytes
unfolding after_prefix
trim_prefix s p = elim (after_prefix s p) [ none ↦ s | some rest ↦ rest ]

-- `strings.Index`, as the text from the first occurrence on; `none` is -1.
unfoldable pub from_index : Bytes → Bytes → Option Bytes
unfolding has_prefix
from_index [] p = if has_prefix [] p then some [] else none
from_index (c ∷ s) p =
    let later = from_index s p in if has_prefix (c ∷ s) p then some (c ∷ s) else later

unfoldable pub contains : Bytes → Bytes → Bool
unfolding from_index
contains s p = elim (from_index s p) [ none ↦ false | some _ ↦ true ]

-- Whether a byte is one of a set.
unfoldable pub in_set : Bytes → ℕ → Bool
in_set [] c = false
in_set (d ∷ cs) c = c == d || in_set cs c

-- `strings.ContainsAny`.
unfoldable pub contains_any : Bytes → Bytes → Bool
unfolding in_set
contains_any [] cs = false
contains_any (c ∷ s) cs = in_set cs c || contains_any s cs

-- `strings.TrimLeft` by a test, and `strings.Trim`.
unfoldable pub trim_left : (ℕ → Bool) → Bytes → Bytes
trim_left test [] = []
trim_left test (c ∷ s) = let rest = trim_left test s in if test c then rest else c ∷ s

unfoldable pub trim : (ℕ → Bool) → Bytes → Bytes
unfolding trim_left
trim test s = reverse (trim_left test (reverse (trim_left test s)))

-- The white space of ASCII: `\t \n \v \f \r` and the blank.
abbrev pub is_space : ℕ → Bool
is_space c = (leb 9 c && leb c 13) || c == 32

-- `strings.TrimSpace`.
unfoldable pub trim_space : Bytes → Bytes
unfolding trim
trim_space = trim is_space

-- The words so far are kept in front; a word is open while its bytes are not empty.
unfoldable pub fields_from : Bytes → Bytes → List Bytes
fields_from [] [] = []
fields_from [] (b ∷ word) = (b ∷ word) ∷ []
fields_from (c ∷ s) [] =
    let skip = fields_from s [] in
    let open_word = fields_from s (c ∷ []) in if is_space c then skip else open_word
fields_from (c ∷ s) (b ∷ word) =
    let close = fields_from s [] in
    let more = fields_from s ((b ∷ word) ++ c ∷ []) in
    if is_space c then (b ∷ word) ∷ close else more

-- `strings.Fields`.
unfoldable pub fields : Bytes → List Bytes
unfolding fields_from
fields s = fields_from s []

-- `strings.ToLower` on ASCII.
unfoldable pub lower_byte : ℕ → ℕ
lower_byte c = if leb b'A' c && leb c b'Z' then c + 32 else c

unfoldable pub to_lower : Bytes → Bytes
unfolding lower_byte
to_lower = map lower_byte

-- `strings.ReplaceAll` of a one-byte text.
unfoldable pub replace_byte : ℕ → Bytes → Bytes → Bytes
replace_byte old new [] = []
replace_byte old new (c ∷ s) =
    let rest = replace_byte old new s in if c == old then new ++ rest else c ∷ rest

-- `strings.ReplaceAll`; the number counts the bytes of a match that are still to be passed over.
unfoldable pub replace_from : Bytes → Bytes → Bytes → ℕ → Bytes
unfolding has_prefix
replace_from old new [] skip = []
replace_from old new (c ∷ s) (suc skip) = replace_from old new s skip
replace_from old new (c ∷ s) zero =
    let found = replace_from old new s (length old - 1) in
    let rest = replace_from old new s 0 in if has_prefix (c ∷ s) old then new ++ found else c ∷ rest

unfoldable pub replace_all : Bytes → Bytes → Bytes → Bytes
unfolding replace_from
replace_all s old new = replace_from old new s 0
