-- ===== src/Buffer/Settings.antt =====
-- buffer.go: the configuration of a node, as `resolveNodeBufferPaths` expects it.
pub mod Reading
use directory_exporter.Common.{
  false, List, [], ◌∷◌, ◌++◌, codes, ◌==◌, ℕ, Bytes, ◌≡◌, All, is_empty,
}
use directory_exporter.Go.Strings.{trim_space}

-- A line of the configuration: a key, what stands between it and the quotes, and the value in them; a
-- comment without its sign; or nothing.
pub data SettingLine : Type 0 where
  type_line : Bytes → Bytes → SettingLine
  source_line : Bytes → Bytes → SettingLine
  comment : Bytes → SettingLine
  blank : SettingLine

abbrev pub in_quotes : Bytes → Bytes
in_quotes v = b'"' ∷ (v ++ b'"' ∷ [])

abbrev pub setting_text : SettingLine → Bytes
setting_text (type_line gap v) = codes "NodeType" ++ (gap ++ in_quotes v)
setting_text (source_line gap v) = codes "SourceDirectory" ++ (gap ++ in_quotes v)
setting_text (comment s) = b'#' ∷ s
setting_text blank = []

-- Each line with its end.
abbrev pub config_text : List SettingLine → Bytes
config_text [] = []
config_text (l ∷ ls) = setting_text l ++ (10 ∷ config_text ls)

-- The value of the last line with a type, and those of the lines with a source directory.
abbrev pub last_type : Bytes → List SettingLine → Bytes
last_type kind [] = kind
last_type kind (type_line gap v ∷ ls) = last_type v ls
last_type kind (_ ∷ ls) = last_type kind ls

abbrev pub sources : List SettingLine → List Bytes
sources [] = []
sources (source_line gap v ∷ ls) = v ∷ sources ls
sources (_ ∷ ls) = sources ls

abbrev pub IsFree : ℕ → Bytes → Type 0
IsFree d = All (λ c. (c == d) ≡ false)

abbrev pub IsValue : Bytes → Type 0
IsValue v = (is_empty v ≡ false) × IsFree b'"' v

-- Lines hold no line end, there is no quote in front of a value and none in it, and a source directory
-- has no white space at its ends.
abbrev pub IsLine : SettingLine → Type 0
IsLine (type_line gap v) = IsFree 10 (setting_text (type_line gap v)) × IsFree b'"' gap × IsValue v
IsLine (source_line gap v) =
    IsFree 10 (setting_text (source_line gap v)) × IsFree b'"' gap × IsValue v × (trim_space v ≡ v)
IsLine (comment s) = IsFree 10 (b'#' ∷ s)
IsLine blank = Unit
