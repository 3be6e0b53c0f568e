-- ===== src/Watch/Walk.antt =====
-- The walk of `discoverDirectories`. The test that prunes branches is a parameter, so that the walk
-- can be compared with one that prunes nothing.
use directory_exporter.Common.{
  member, ◌≡◌, ◌⊎◌, inl, inr, Bool-cases, ℕ, zero, suc, ℤ, pos, pos_part, ltb_ℤ, Bool, true, false,
  ◌&&◌, ◌||◌, not, List, [], eqb, codes, ◌==◌, ltb, ◌∷◌, ◌++◌, Option, none, some, Bytes, Error,
  if◌then◌else◌, length, is_empty,
}
use directory_exporter.Go.Strconv.{quote_text}
use directory_exporter.Types.{DirLabels, WatchEntry}
use directory_exporter.Go.Os.{
  Result-cases, Result, ok, err, FileSystem, DirEntry, is_symlink, is_dir_entry,
}
use directory_exporter.Go.Strings.{split, join, contains_any}
use directory_exporter.Go.FilePath.{slash, clean, join_path}
use directory_exporter.Watch.Pattern.{segments, include_mark, match_pattern, match_pattern_prefix}

-- The variables that the walk shares: `ancestors` holds the keys of the map.
pub record Found : Type 0 where
  pub entries : List WatchEntry
  pub first_err : Option Error
  pub ancestors : List Bytes

abbrev pub note_err : Error → Found → Found
note_err e s = elim s.first_err [ none ↦ record s { first_err = some e } | some _ ↦ s ]

-- `delete(ancestors, k)`
unfoldable pub remove : Bytes → List Bytes → List Bytes
remove k [] = []
remove k (j ∷ ks) = if eqb k j then remove k ks else j ∷ remove k ks

abbrev pub first_part : List Bytes → Bytes
first_part [] = []
first_part (p ∷ _) = p

abbrev pub later_parts : List Bytes → List Bytes
later_parts [] = []
later_parts (_ ∷ ps) = ps

-- The parts that a wildcard of the pattern stands for.
unfoldable pub wild_parts : List Bytes → List Bytes → List Bytes
wild_parts [] parts = []
wild_parts (_ ∷ _) [] = []
wild_parts (pat ∷ pats) (part ∷ parts) =
    let rest = wild_parts pats parts in
    if contains_any pat (codes "*?[") || eqb pat include_mark then part ∷ rest else rest

-- The labels of a directory that is found at a relative path and a depth.
unfoldable pub labels_at : Bytes → Bytes → Bytes → ℕ → DirLabels
unfolding wild_parts
labels_at label pattern rel_path depth =
    let parts = split rel_path slash in
    let wild = wild_parts (later_parts (segments pattern)) (later_parts parts) in
    record {
      base = label;
      stream = first_part parts;
      kind =
          if ltb 1 depth
          then if not (is_empty pattern) && length (segments pattern) == length parts
            then join wild (slash ∷ [])
            else join (later_parts parts) (slash ∷ [])
          else [];
    }

-- The descent into a directory whose real path is given, if it could be found: not if that is an
-- ancestor, and with that among the ancestors meanwhile.
unfoldable pub enter : Result Bytes → (Found → Found) → Found → Found
unfolding member remove
enter (err _) descend s = descend s
enter (ok real) descend s =
    let t = descend (record s { ancestors = real ∷ s.ancestors }) in
    if member real s.ancestors then s else record t { ancestors = remove real t.ancestors }

abbrev pub child_rel : Bytes → Bytes → Bytes
child_rel rel_path name = if is_empty rel_path then name else join_path rel_path name

-- The entries of a directory that could be read are handed on; an error is noted.
unfoldable pub with_entries :
    Result (List DirEntry) → (List DirEntry → Found → Found) → Found → Found
with_entries (err e) each s = note_err e s
with_entries (ok es) each s = each es s

module _ (label pattern : Bytes) (include : List Bytes) where
  -- What the walk does at a directory before it reads it; `none` if it stops there with an error.
  unfoldable pub visit : Bytes → Bytes → ℕ → Found → Found × Bool
  visit current rel_path zero s = (s, true)
  visit current rel_path (suc d) s = elim (match_pattern pattern rel_path include) [
    | err e ↦ (note_err e s, false)
    | ok false ↦ (s, true)
    | ok true ↦ (
      record s {
        entries =
            s.entries
            ++ record { abs_path = current; labels = labels_at label pattern rel_path (suc d) }
              ∷ [];
      },
      true,
    )
  ]

module _ (fs : FileSystem) where
  -- Whether an entry is a directory or a symlink to one.
  unfoldable pub is_child_dir : DirEntry → Bytes → Bool
  is_child_dir e child_path =
      if is_dir_entry e
      then true
      else if is_symlink e
      then elim (fs.stat child_path) [ err _ ↦ false | ok info ↦ info.is_dir ]
      else false

  -- The loop over the entries of a directory; `descend` is the recursive call.
  module _ (prune : Bytes → Bool) (descend : Bytes → Bytes → Found → Found) where
    unfoldable pub walk_child : Bytes → Bytes → DirEntry → Found → Found
    unfolding is_child_dir
    walk_child current rel_path e s =
        let child_path = join_path current e.name in
        let rel = child_rel rel_path e.name in
        if not (is_child_dir e child_path)
        then s
        else if not (prune rel)
        then s
        else enter (fs.eval_symlinks child_path) (descend child_path rel) s

    unfoldable pub walk_children : Bytes → Bytes → List DirEntry → Found → Found
    walk_children current rel_path [] s = s
    walk_children current rel_path (e ∷ es) s =
        walk_children current rel_path es (walk_child current rel_path e s)

  -- The start of the walk: the real path of the base is the only ancestor.
  abbrev pub start_walk : Bytes → Found
  start_walk base = record {
    entries = [];
    first_err = none;
    ancestors = elim (fs.eval_symlinks base) [ err _ ↦ base | ok real ↦ real ] ∷ [];
  }

  module _ (label pattern : Bytes) (include : List Bytes) where
    -- `left` is `maxDepth - depth`.
    unfoldable pub walk : (Bytes → Bool) → ℕ → Bytes → Bytes → ℕ → Found → Found
    walk prune zero current rel_path depth s =
        (visit label pattern include current rel_path depth s).0
    walk prune (suc left) current rel_path depth s =
        let (t, goes_on) = visit label pattern include current rel_path depth s in
        let descend = λ (path rel : Bytes) (u : Found). walk prune left path rel (suc depth) u in
        if goes_on
        then with_entries (fs.read_dir current) (walk_children prune descend current rel_path) t
        else t

    -- `discoverDirectories`, with the pruning test given. The message leaves out the quoting of `%q`.
    unfoldable pub discover_with : (Bytes → Bool) → Bytes → ℤ → List WatchEntry × Option Error
    discover_with prune base_path max_depth =
        let base = clean base_path in
        let s = walk prune (pos_part max_depth) base [] 0 (start_walk base) in
        elim (fs.stat base) [
          | err e ↦ ([], some e)
          | ok info ↦
              if not info.is_dir
              then (
                [],
                some (codes "base path " ++ (quote_text base ++ codes " is not a directory")),
              )
              else if ltb_ℤ max_depth (pos 0)
              then ([], none)
              else (s.entries, s.first_err)
        ]

    -- Nothing is found unless the base is a directory and the depth is not negative.
    pub discover_with_cases :
        (base_path : Bytes) (max_depth : ℤ)
        → ((prune : Bytes → Bool) → (discover_with prune base_path max_depth).0 ≡ [])
          ⊎ ((prune : Bytes → Bool)
              → (discover_with prune base_path max_depth).0
                ≡ (walk prune
                    (pos_part max_depth)
                    (clean base_path)
                    []
                    0
                    (start_walk (clean base_path))).entries)
    unfolding discover_with
    discover_with_cases base_path max_depth = elim (Result-cases (fs.stat (clean base_path))) [
      | inl (e, p) ↦ inl (λ prune. rw (p, discover_with))
      | inr (info, p) ↦ elim (Bool-cases (not info.is_dir)) [
        | inl q ↦ inl (λ prune. rw (p, discover_with) (rw q))
        | inr q ↦ elim (Bool-cases (ltb_ℤ max_depth (pos 0))) [
          | inl r ↦ inl (λ prune. rw (p, discover_with) (rw (q, r)))
          | inr r ↦ inr (λ prune. rw (p, discover_with) (rw (q, r)))
        ]
      ]
    ]

    unfoldable pub discover_directories : Bytes → ℤ → List WatchEntry × Option Error
    unfolding discover_with
    discover_directories = discover_with (λ rel. match_pattern_prefix pattern rel include)
