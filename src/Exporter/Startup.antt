-- ===== src/Exporter/Startup.antt =====
-- exporter.go: `ValidateTargets`, and what `Discover` logs.
use directory_exporter.Common.{
  pos, true, not, List, [], ◌∷◌, ◌++◌, map, Option, none, some, Bytes, Error, codes, if◌then◌else◌,
  is_empty, length, ◌≡◌, Bool-cases, arith, refl, ◌∙◌, sym, inl, inr, ℤ, Option-cases,
}
use directory_exporter.Types.{Target, WatchEntry}
use directory_exporter.Go.Os.{FileSystem, FileInfo, ok, err, Result-cases}
use directory_exporter.Go.FilePath.{clean}
use directory_exporter.Go.Strings.{join}
use directory_exporter.Go.Strconv.{quote_text}
use directory_exporter.Go.Slog.{LogLine, info, error}
use directory_exporter.Config.{Config}
use directory_exporter.Watch.Targets.{discover_target, pattern_error}
use directory_exporter.Watch.Walk.{discover_directories, discover_with}
use directory_exporter.Metrics.Text.{decimal}

-- How a target is watched, behind the text that its base is well.
unfoldable pub target_detail : Target → Bytes
target_detail t =
    let how =
      if not (is_empty t.dirs)
      then codes ", watching " ++ (decimal (pos (length t.dirs)) ++ codes " explicit dirs")
      else if not (is_empty t.pattern)
      then codes ", auto-discover pattern "
        ++ (quote_text t.pattern
            ++ (codes " up to depth "
                ++ (decimal t.max_depth
                    ++ (if not (is_empty t.include)
                        then codes " (include: " ++ (join t.include (codes ", ") ++ codes ")")
                        else []))))
      else codes ", auto-discover up to depth " ++ decimal t.max_depth in
    codes "base " ++ (quote_text t.base ++ (codes " OK" ++ how))

-- One round of the loop of `ValidateTargets`. The dash in the message is U+2014.
unfoldable pub target_line : FileSystem → Target → LogLine
unfolding target_detail
target_line fs t = elim (fs.stat t.base) [
  | err e ↦ record {
    level = error;
    message =
        codes "target base path not accessible "
        ++ (226 ∷ 128 ∷ 148 ∷ codes " check your volume mount");
    values = (codes "base", t.base) ∷ (codes "error", e) ∷ [];
  }
  | ok stat ↦
      if not stat.is_dir
      then record {
        level = error;
        message = codes "target base path is not a directory";
        values = (codes "base", t.base) ∷ [];
      }
      else record {
        level = info;
        message = codes "target validated";
        values = (codes "detail", target_detail t) ∷ [];
      }
]

-- The lines that `ValidateTargets` logs.
unfoldable pub validation_log : FileSystem → Config → List LogLine
validation_log fs cfg = map (target_line fs) cfg.targets

-- The lines that `Discover` logs.
unfoldable pub discovery_log : List WatchEntry × Option Error → List LogLine
discovery_log (entries, e) =
    let listed : LogLine = record {
      level = info;
      message = codes "watch list updated";
      values = (codes "directories", decimal (pos (length entries))) ∷ [];
    } in
    elim e [
      | none ↦ listed ∷ []
      | some text ↦
          record {
            level = error;
            message = codes "discovery error";
            values = (codes "error", text) ∷ [];
          }
          ∷ listed
          ∷ []
    ]

-- The base is a directory.
abbrev pub IsDirectory : FileSystem → Bytes → Type 0
IsDirectory fs p = (stat : FileInfo) × (fs.stat p ≡ ok stat) × (stat.is_dir ≡ true)

target_line-level :
    (fs : FileSystem) (t : Target) → (target_line fs t).level ≡ error → ¬ IsDirectory fs t.base
unfolding target_line
target_line-level fs t bad (stat, p, dir) = absurd (ground arith)

discover_directories-not_directory :
    (fs : FileSystem) (label pattern : Bytes) (include : List Bytes) (base_path : Bytes)
    (max_depth : ℤ)
    → ¬ IsDirectory fs (clean base_path)
    → (discover_directories fs label pattern include base_path max_depth).0 ≡ []
unfolding discover_directories discover_with
discover_directories-not_directory fs label pattern include base_path max_depth no_dir =
    elim (Result-cases (fs.stat (clean base_path))) [
      | inl (e, p) ↦ rw (p, discover_with) refl
      | inr (stat, p) ↦ elim (Bool-cases stat.is_dir) [
        | inl dir ↦ absurd (no_dir (stat, p, dir))
        | inr file ↦ rw (p, discover_with, file) refl
      ]
    ]

-- Where `Stat` answers for the cleaned base as it does for the base, a target without explicit
-- directories whose base is logged as an error at the start contributes no entry to the watch list,
-- so that no metric of a directory tells of it.
pub target_line-no_entries :
    (fs : FileSystem) (t : Target)
    → fs.stat (clean (clean t.base)) ≡ fs.stat t.base
    → t.dirs ≡ []
    → (target_line fs t).level ≡ error
    → (discover_target fs t).0 ≡ []
unfolding discover_target
target_line-no_entries fs t same none_listed bad =
    let missing : ¬ IsDirectory fs (clean (clean t.base)) =
      λ (stat, p, dir). target_line-level fs t bad (stat, sym same ∙ p, dir) in
    elim (Option-cases (pattern_error t.pattern)) [
      | inl fine ↦
          rw (none_listed, fine, discover_target)
            (discover_directories-not_directory fs _ t.pattern t.include (clean t.base) _ missing)
      | inr (e, p) ↦ rw (none_listed, p, discover_target) refl
    ]
