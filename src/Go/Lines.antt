-- ===== src/Go/Lines.antt =====
-- `bufio.Scanner` with its default split function and buffer: a line that does not fit into 64 KiB
-- with its end ends the reading.
use directory_exporter.Common.{
  ltb, ◌^◌, List, [], ◌∷◌, ◌==◌, Bytes, codes, if◌then◌else◌, length, is_empty, ◌≡◌, refl,
}
use directory_exporter.Go.Strings.{split}

-- One `\r` at the end is taken away.
unfoldable pub drop_cr : Bytes → Bytes
drop_cr [] = []
drop_cr (c ∷ []) = if c == 13 then [] else c ∷ []
drop_cr (c ∷ d ∷ s) = c ∷ drop_cr (d ∷ s)

-- The last part stands behind the last line end, and is a line if it is not empty.
unfoldable pub lines_of : List Bytes → List Bytes
unfolding drop_cr
lines_of [] = []
lines_of (p ∷ []) =
    if is_empty p then [] else if ltb (length p) (2 ^ 16) then drop_cr p ∷ [] else []
lines_of (p ∷ q ∷ ps) =
    let rest = lines_of (q ∷ ps) in if ltb (length p) (2 ^ 16) then drop_cr p ∷ rest else []

unfoldable pub scan_lines : Bytes → List Bytes
unfolding split lines_of
scan_lines text = lines_of (split text 10)

lines_sample : scan_lines (b'a' ∷ 13 ∷ 10 ∷ 10 ∷ b'b' ∷ []) ≡ codes "a" ∷ [] ∷ codes "b" ∷ []
unfolding scan_lines
lines_sample = refl
