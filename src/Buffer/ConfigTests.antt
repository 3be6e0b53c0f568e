-- ===== src/Buffer/ConfigTests.antt =====
-- The configuration of a collector with two source directories.
use directory_exporter.Common.{
  not, ◌&&◌, List, [], ◌∷◌, ◌++◌, codes, if◌then◌else◌, ◌≡◌, refl, All, arith, is_empty,
}
use directory_exporter.Go.Os.{FileSystem, ok, err}
use directory_exporter.Go.Strings.{trim_space, trim, trim_left}
use directory_exporter.Buffer.Resolve.{is_collector, resolve_node_buffer_paths}
use directory_exporter.Buffer.Settings.{
  SettingLine, type_line, source_line, comment, blank, config_text, last_type, sources, IsLine,
}
use directory_exporter.Buffer.Settings.Reading.{resolve_node_buffer_paths-config_text}

abbrev config_lines : List SettingLine
config_lines =
    type_line (codes " ") (codes "collector")
    ∷ comment (codes " inputs")
    ∷ source_line (codes ": ") (codes "/data/in")
    ∷ source_line (9 ∷ []) (codes "/data/late")
    ∷ blank
    ∷ []

config_lines-text :
    config_text config_lines
    ≡ codes "NodeType \"collector\""
      ++ 10 ∷ codes "# inputs"
      ++ 10 ∷ codes "SourceDirectory: \"/data/in\""
      ++ 10 ∷ codes "SourceDirectory"
      ++ 9 ∷ codes "\"/data/late\""
      ++ 10 ∷ 10 ∷ []
config_lines-text = refl

abbrev fs : FileSystem
fs = record {
  stat = λ p. err (codes "gone");
  open_dir = λ p. err (codes "gone");
  read_dir = λ p. err (codes "gone");
  read_file = λ p. ok (config_text config_lines);
  eval_symlinks = λ p. ok p;
}

config_lines-IsLine : All IsLine config_lines
unfolding trim_space trim trim_left
config_lines-IsLine = (
  (ground arith, ground arith, (refl, ground arith)),
  (
    ground arith,
    (
      (ground arith, ground arith, (refl, ground arith), refl),
      ((ground arith, ground arith, (refl, ground arith), refl), (tt, tt)),
    ),
  ),
)

resolve_node_buffer_paths-config_text_example : resolve_node_buffer_paths fs (codes "/n") ≡ (
  last_type [] config_lines,
  (if not (is_empty (last_type [] config_lines)) && not (is_collector (last_type [] config_lines))
      then []
      else sources config_lines),
)
resolve_node_buffer_paths-config_text_example =
    resolve_node_buffer_paths-config_text fs (codes "/n") config_lines config_lines-IsLine refl
