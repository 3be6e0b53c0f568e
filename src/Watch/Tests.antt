-- ===== src/Watch/Tests.antt =====
-- A tree of streams: `/s/orders/{buffer,loop}`, where `loop` is a symlink back to `/s`, and
-- `/s/logs`, a file `/s/note`.
use mathlib.Core.List.{flat_map, head?, Memᴰ}
use directory_exporter.Common.{
  member, All-member, subst, Bool-cases, pos, true, List, [], eqb, codes, map, ◌∷◌, ◌++◌, none,
  some, Bytes, if◌then◌else◌, ◌≡◌, ◌↔◌, arith, inl, inr, refl, All,
}
use directory_exporter.Types.{Target}
use directory_exporter.Go.Os.{ok, err, FileSystem, DirEntry, regular, directory, symlink}
use directory_exporter.Go.FilePath.{clean, join_path}
use directory_exporter.Go.Strings.{replace_all, split, join, trim, contains_any}
use directory_exporter.Go.Glob.{match}
use directory_exporter.Go.Names.{IsName, joined}
use directory_exporter.Watch.Pattern.{segments, match_segment, match_pattern, match_pattern_prefix}
use directory_exporter.Watch.Walk.{
  labels_at, enter, visit, with_entries, walk, walk_child, walk_children, discover_with,
  discover_directories,
}
use directory_exporter.Go.Strconv.{quote_text}
use directory_exporter.Watch.Exact.{IsDiscovered, discover_directories_exact}
use directory_exporter.Watch.Idle.{HasNames}
use directory_exporter.Watch.Pruned.{discover_directories-unpruned}
use directory_exporter.Watch.Targets.{
  explicit_entry, resolve_explicit_dirs, discover_target, discover_targets,
}
use directory_exporter.Watch.Explicit.{target_errors, discover_targets-flat_map}
use directory_exporter.Watch.Validate.{validate_targets, IsUsable, validate_targets_iff}

abbrev entry : Bytes → DirEntry
entry name = record { name = name; entry_type = directory; info = none }

abbrev top : List DirEntry
top =
    entry (codes "logs")
    ∷ record { name = codes "note"; entry_type = regular; info = none }
    ∷ entry (codes "orders")
    ∷ []

abbrev orders : List DirEntry
orders =
    entry (codes "buffer") ∷ record { name = codes "loop"; entry_type = symlink; info = none } ∷ []

abbrev listing : Bytes → List DirEntry
listing p = if eqb p (codes "/s") then top else if eqb p (codes "/s/orders") then orders else []

abbrev fs : FileSystem
fs = record {
  stat = λ p. ok (record { is_dir = true; mod_time = pos 1 });
  open_dir = λ p. ok [];
  read_dir = λ p. ok (listing p);
  read_file = λ p. err [];
  eval_symlinks = λ p. ok (if eqb p (codes "/s/orders/loop") then codes "/s" else p);
}

abbrev no_include : List Bytes
no_include = []

-- Two levels deep: the symlink to an ancestor is not entered.
two_levels :
    discover_directories fs (codes "streams") (codes "*/*") no_include (codes "/s/") (pos 2) ≡ (
      record {
        abs_path = codes "/s/orders/buffer";
        labels = record { base = codes "streams"; stream = codes "orders"; kind = codes "buffer" };
      }
          ∷ [],
      none,
    )
unfolding discover_directories walk walk_children walk_child visit enter with_entries labels_at
    clean join_path match_pattern match_pattern_prefix segments match_segment match trim split join
    contains_any
two_levels = refl

one_level :
    map
      (λ w. w.abs_path)
      (discover_directories fs (codes "streams") [] no_include (codes "/s") (pos 1)).0
    ≡ codes "/s/logs" ∷ codes "/s/orders" ∷ []
unfolding discover_directories walk walk_children walk_child visit enter with_entries labels_at
    clean join_path match_pattern match_pattern_prefix segments match_segment match trim split join
one_level = refl

matches_buffer :
    match_pattern (codes "*/*") (joined (codes "orders" ∷ codes "buffer" ∷ [])) no_include ≡ ok true
unfolding match_pattern segments match_segment match trim split join
matches_buffer = refl

explicit :
    resolve_explicit_dirs (codes "/s") (codes "/s") (codes "a/b/c" ∷ codes "d" ∷ codes "./d/" ∷ [])
    ≡ record {
      abs_path = codes "/s/a/b/c";
      labels = record { base = codes "/s"; stream = codes "a"; kind = codes "b/c" };
    }
      ∷ record {
        abs_path = codes "/s/d";
        labels = record { base = codes "/s"; stream = codes "d"; kind = [] };
      }
      ∷ []
unfolding resolve_explicit_dirs explicit_entry member clean join_path split join
explicit = refl

listing-IsName : (p : Bytes) → All (λ e. IsName e.name) (listing p)
listing-IsName p = elim (Bool-cases (eqb p (codes "/s"))) [
  | inl a ↦ rw a (ground arith)
  | inr a ↦ elim (Bool-cases (eqb p (codes "/s/orders"))) [
    | inl b ↦ rw (a, b) (ground arith)
    | inr b ↦ rw (a, b) tt
  ]
]

listed : (p : Bytes) (es : List DirEntry) → fs.read_dir p ≡ ok es → listing p ≡ es
listed p es h = cc

fs-HasNames : HasNames fs
fs-HasNames p es h e m =
    All-member (λ d. IsName d.name) es
      (subst (All (λ d. IsName d.name)) (listed p es h) (listing-IsName p)) m

discover_directories_exact_example :
    Memᴰ
      (record {
        abs_path = codes "/s/orders/buffer";
        labels = record { base = codes "streams"; stream = codes "orders"; kind = codes "buffer" };
      })
      (discover_directories fs (codes "streams") (codes "*/*") no_include (codes "/s/") (pos 2)).0
    ↔ IsDiscovered (codes "streams") (codes "*/*") no_include fs (codes "/s/") (pos 2) (record {
      abs_path = codes "/s/orders/buffer";
      labels = record { base = codes "streams"; stream = codes "orders"; kind = codes "buffer" };
    })
discover_directories_exact_example =
    discover_directories_exact fs (codes "streams") (codes "*/*") no_include (codes "/s/") (pos 2)
      (record {
        abs_path = codes "/s/orders/buffer";
        labels = record { base = codes "streams"; stream = codes "orders"; kind = codes "buffer" };
      })
      fs-HasNames

discover_directories-unpruned_example :
    (discover_directories fs (codes "streams") (codes "*/*") no_include (codes "/s/") (pos 2)).0
    ≡ (discover_with fs
        (codes "streams")
        (codes "*/*")
        no_include
        (λ rel. true)
        (codes "/s/")
        (pos 2)).0
discover_directories-unpruned_example =
    discover_directories-unpruned fs (codes "streams") (codes "*/*") no_include (codes "/s/")
      (pos 2) fs-HasNames

abbrev target : Bytes → Target
target pattern = record {
  base = codes "/s";
  label = [];
  dirs = [];
  max_depth = pos 0;
  pattern = pattern;
  include = [];
}

abbrev targets : List Target
targets = target (codes "[") ∷ target (codes "*") ∷ target (codes "x[") ∷ []

-- The pattern "[" is refused; the target behind it is discovered all the same.
one_bad_pattern :
    (discover_targets fs targets).1
    ≡ some (codes "invalid pattern " ++ (34 ∷ b'[' ∷ 34 ∷ codes ": syntax error in pattern"))
unfolding discover_targets discover_target resolve_explicit_dirs discover_directories walk
    walk_children walk_child visit enter with_entries labels_at clean join_path match_pattern
    match_pattern_prefix segments match_segment match trim split join replace_all quote_text
one_bad_pattern = refl

discover_targets-flat_map_example :
    discover_targets fs targets
    ≡ (flat_map (λ t. (discover_target fs t).0) targets, head? (target_errors fs targets))
discover_targets-flat_map_example = discover_targets-flat_map fs targets

validate_targets_iff_example :
    (validate_targets fs (target [] ∷ []) ≡ none) ↔ All (IsUsable fs) (target [] ∷ [])
validate_targets_iff_example = validate_targets_iff fs (target [] ∷ [])
