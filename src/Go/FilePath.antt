-- ===== src/Go/FilePath.antt =====
-- The functions of package path/filepath that the program calls, on a Unix system, where
-- `ToSlash` changes nothing and the separator is '/'.
use mathlib.Core.List.{reverse, foldl}
use directory_exporter.Common.{
  ℕ, Bool, false, ◌||◌, List, [], ◌∷◌, ◌++◌, Bytes, codes, ◌==◌, eqb, is_empty, if◌then◌else◌, ◌≡◌,
  refl,
}
use directory_exporter.Go.Strings.{split, join, in_set, trim_left}

abbrev pub slash : ℕ
slash = b'/'

abbrev pub dot : Bytes
dot = b'.' ∷ []

abbrev pub dot_dot : Bytes
dot_dot = b'.' ∷ b'.' ∷ []

-- One path element of `Clean`; the elements that are kept are stacked, the last one first.
unfoldable pub clean_step : Bool → List Bytes → Bytes → List Bytes
clean_step rooted kept part =
    if is_empty part || eqb part dot
    then kept
    else if eqb part dot_dot
    then elim kept [
      | [] ↦ if rooted then [] else part ∷ []
      | top ∷ below ↦ if eqb top dot_dot then part ∷ top ∷ below else below
    ]
    else part ∷ kept

abbrev pub is_rooted : Bytes → Bool
is_rooted [] = false
is_rooted (c ∷ _) = c == slash

-- `filepath.Clean`.
unfoldable pub clean : Bytes → Bytes
unfolding clean_step split join
clean path =
    let rooted = is_rooted path in
    let body = join (reverse (foldl (clean_step rooted) [] (split path slash))) (slash ∷ []) in
    if rooted then slash ∷ body else if is_empty body then dot else body

-- `filepath.Join` of two elements.
unfoldable pub join_path : Bytes → Bytes → Bytes
unfolding clean
join_path a b = if is_empty a then if is_empty b then [] else clean b else clean (a ++ slash ∷ b)

-- `filepath.Join` of any number of elements: the empty ones in front are left out.
unfoldable pub join_paths : List Bytes → Bytes
unfolding clean join
join_paths [] = []
join_paths (p ∷ ps) =
    let rest = join_paths ps in if is_empty p then rest else clean (join (p ∷ ps) (slash ∷ []))

-- The bytes behind the last slash.
unfoldable pub last_element : Bytes → Bytes
last_element [] = []
last_element (c ∷ s) =
    let rest = last_element s in if in_set s slash then rest else if c == slash then s else c ∷ s

-- `filepath.Base`.
unfoldable pub base_name : Bytes → Bytes
unfolding last_element trim_left
base_name path =
    let name = last_element (reverse (trim_left (λ c. c == slash) (reverse path))) in
    if is_empty path then dot else if is_empty name then slash ∷ [] else name

clean_sample : clean (codes "/data//a/./b/../c/") ≡ codes "/data/a/c"
unfolding clean
clean_sample = refl

clean_above : clean (codes "a/../../b") ≡ codes "../b"
unfolding clean
clean_above = refl

clean_root : clean (codes "/../") ≡ codes "/"
unfolding clean
clean_root = refl

join_sample : join_path (codes "/streams") (codes "orders") ≡ codes "/streams/orders"
unfolding join_path
join_sample = refl

join_paths_sample :
    join_paths ([] ∷ codes "/s/n" ∷ codes "control" ∷ codes "1" ∷ []) ≡ codes "/s/n/control/1"
unfolding join_paths
join_paths_sample = refl

base_sample : base_name (codes "out/f.csv/") ≡ codes "f.csv"
unfolding base_name in_set
base_sample = refl

base_plain : base_name (codes "f.csv") ≡ codes "f.csv"
unfolding base_name in_set
base_plain = refl
