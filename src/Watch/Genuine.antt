-- ===== src/Watch/Genuine.antt =====
-- Every directory that the walk finds is there, within the depth, and matches the pattern.
use mathlib.Core.List.{Memᴰ}
use directory_exporter.Common.{
  member, ℕ, zero, suc, ◌+◌, ◌≤◌, ℤ, pos_part, Bool, true, List, [], Bool-cases, ◌∷◌, ◌++◌, Bytes,
  Error, ◌≡◌, ◌⊎◌, arith, inl, inr, refl, sym, subst, All, All-append,
}
use directory_exporter.Types.{WatchEntry}
use directory_exporter.Go.Os.{Result, ok, err, FileSystem, DirEntry}
use directory_exporter.Go.FilePath.{join_path, clean}
use directory_exporter.Watch.Pattern.{match_pattern}
use directory_exporter.Watch.Walk.{
  Found, note_err, is_child_dir, walk_child, walk_children, enter, child_rel, with_entries, visit,
  walk, labels_at, discover_with, discover_with_cases, start_walk, discover_directories,
}

-- The directories below a base: their path, their path relative to the base, and their depth. Each
-- is an entry of the one above that is a directory or a symlink to one.
pub data Reached (fs : FileSystem) (base : Bytes) : Bytes → Bytes → ℕ → Type 0 where
  root : Reached fs base base [] 0
  child :
      {path rel : Bytes} {depth : ℕ} {es : List DirEntry} {e : DirEntry}
      → Reached fs base path rel depth
      → fs.read_dir path ≡ ok es
      → Memᴰ e es
      → is_child_dir fs e (join_path path e.name) ≡ true
      → Reached fs base (join_path path e.name) (child_rel rel e.name) (suc depth)

pub note_err-entries : (e : Error) (s : Found) → s.entries ≡ (note_err e s).entries
note_err-entries e s = ground arith

module _ (fs : FileSystem) (base label pattern : Bytes) (include : List Bytes) (max_depth : ℕ) where
  -- An entry of the watch list that stands for a directory below the base, at most `max_depth` deep,
  -- whose relative path matches the pattern, with the labels of that path.
  pub record IsGenuine (w : WatchEntry) : Type 0 where
    pub path : Bytes
    pub rel : Bytes
    pub depth : ℕ
    pub reached : Reached fs base path rel (suc depth)
    pub within : suc depth ≤ max_depth
    pub matches : match_pattern pattern rel include ≡ ok true
    pub entry : w ≡ record { abs_path = path; labels = labels_at label pattern rel (suc depth) }

  -- A walk that adds genuine entries only.
  abbrev Adds : (Found → Found) → Type 0
  Adds f = (s : Found) → All IsGenuine s.entries → All IsGenuine (f s).entries

  enter-Adds : (real : Result Bytes) (f : Found → Found) → Adds f → Adds (enter real f)
  unfolding enter
  enter-Adds (err _) f adds s h = adds s h
  enter-Adds (ok real) f adds s h = elim (Bool-cases (member real s.ancestors)) [
    | inl known ↦ rw known h
    | inr new ↦ rw new (adds (record s { ancestors = real ∷ s.ancestors }) h)
  ]

  -- A visit adds the directory that matches, or nothing.
  pub visit_cases :
      (path rel : Bytes) (depth : ℕ) (s : Found)
      → let t = (visit label pattern include path rel (suc depth) s).0 in
        (t.entries ≡ s.entries)
        ⊎ ((match_pattern pattern rel include ≡ ok true)
            × (t.entries
                ≡ s.entries
                  ++ record { abs_path = path; labels = labels_at label pattern rel (suc depth) }
                    ∷ []))
  unfolding visit
  visit_cases path rel depth s = ground arith

  visit-Adds :
      (path rel : Bytes) (depth : ℕ)
      → Reached fs base path rel depth
      → depth ≤ max_depth
      → Adds (λ s. (visit label pattern include path rel depth s).0)
  visit-Adds path rel zero r d s h = unfold visit in h
  visit-Adds path rel (suc depth) r d s h = elim (visit_cases path rel depth s) [
    | inl same ↦ subst (All IsGenuine) (sym same) h
    | inr (matches, more) ↦
        let w : WatchEntry = record {
          abs_path = path;
          labels = labels_at label pattern rel (suc depth);
        } in
        let genuine : IsGenuine w = record {
          path = path;
          rel = rel;
          depth = depth;
          reached = r;
          within = d;
          matches = matches;
          entry = refl;
        } in
        subst (All IsGenuine) (sym more) (All-append IsGenuine s.entries (w ∷ []) h (genuine, tt))
  ]

  with_entries-Adds :
      (r : Result (List DirEntry)) (each : List DirEntry → Found → Found)
      → ((es : List DirEntry) → r ≡ ok es → Adds (each es))
      → Adds (with_entries r each)
  unfolding with_entries
  with_entries-Adds (err e) each adds s h = subst (All IsGenuine) (note_err-entries e s) h
  with_entries-Adds (ok es) each adds s h = adds es refl s h

  module _ (prune : Bytes → Bool) (descend : Bytes → Bytes → Found → Found) (path rel : Bytes)
      (all : List DirEntry)
      (adds : (e : DirEntry)
        → Memᴰ e all
        → is_child_dir fs e (join_path path e.name) ≡ true
        → Adds (descend (join_path path e.name) (child_rel rel e.name))) where
    walk_child-Adds : (e : DirEntry) → Memᴰ e all → Adds (walk_child fs prune descend path rel e)
    unfolding walk_child
    walk_child-Adds e m s h =
        let into = descend (join_path path e.name) (child_rel rel e.name) in
        elim (Bool-cases (is_child_dir fs e (join_path path e.name))) [
          | inl dir ↦ elim (Bool-cases (prune (child_rel rel e.name))) [
            | inl kept ↦
                rw (dir, kept)
                  (enter-Adds (fs.eval_symlinks (join_path path e.name)) into (adds e m dir) s h)
            | inr pruned ↦ rw (dir, pruned) h
          ]
          | inr other ↦ rw other h
        ]

    walk_children-Adds :
        (es : List DirEntry)
        → ((e : DirEntry) → Memᴰ e es → Memᴰ e all)
        → Adds (walk_children fs prune descend path rel es)
    unfolding walk_children
    walk_children-Adds [] inside s h = h
    walk_children-Adds (e ∷ es) inside s h =
        walk_children-Adds es (λ d m. inside d (Memᴰ.tail m)) _
          (walk_child-Adds e (inside e (Memᴰ.head refl)) s h)

  walk-Adds :
      (prune : Bytes → Bool) (left : ℕ) (path rel : Bytes) (depth : ℕ)
      → Reached fs base path rel depth
      → depth + left ≤ max_depth
      → Adds (walk fs label pattern include prune left path rel depth)
  unfolding walk
  walk-Adds prune zero path rel depth r d s h = visit-Adds path rel depth r (omega arith) s h
  walk-Adds prune (suc left) path rel depth r d s h =
      let t = (visit label pattern include path rel depth s).0 in
      let visited = visit-Adds path rel depth r (omega arith) s h in
      let descend =
        λ (p q : Bytes) (u : Found). walk fs label pattern include prune left p q (suc depth) u in
      elim (Bool-cases (visit label pattern include path rel depth s).1) [
        | inl on ↦ rw on (
            with_entries-Adds (fs.read_dir path) (walk_children fs prune descend path rel)
              (λ es listed.
                walk_children-Adds prune descend path rel es
                  (λ e m dir.
                    walk-Adds prune left (join_path path e.name) (child_rel rel e.name) (suc depth)
                      (child r listed m dir) (omega arith))
                  es (λ e m. m))
              t visited)
        | inr off ↦ rw off visited
      ]

discover_with-IsGenuine :
    (fs : FileSystem) (label pattern : Bytes) (include : List Bytes) (prune : Bytes → Bool)
    (base_path : Bytes) (max_depth : ℤ)
    → All
        (IsGenuine fs (clean base_path) label pattern include (pos_part max_depth))
        (discover_with fs label pattern include prune base_path max_depth).0
discover_with-IsGenuine fs label pattern include prune base_path max_depth =
    let base = clean base_path in
    let P = IsGenuine fs base label pattern include (pos_part max_depth) in
    elim (discover_with_cases fs label pattern include base_path max_depth) [
      | inl nothing ↦ subst (All P) (sym (nothing prune)) tt
      | inr found ↦ subst (All P) (sym (found prune)) (
          walk-Adds fs base label pattern include (pos_part max_depth) prune (pos_part max_depth)
            base [] 0 root (omega arith) (start_walk fs base) tt)
    ]

-- Every entry that `discoverDirectories` returns, with an error or without, is a directory below
-- the cleaned base, reached through entries that are directories or symlinks to such, at least one
-- and at most `maxDepth` levels down; its relative path matches the pattern; and it has the labels of
-- that path.
discover_directories-IsGenuine :
    (fs : FileSystem) (label pattern : Bytes) (include : List Bytes) (base_path : Bytes)
    (max_depth : ℤ)
    → All
        (IsGenuine fs (clean base_path) label pattern include (pos_part max_depth))
        (discover_directories fs label pattern include base_path max_depth).0
unfolding discover_directories
discover_directories-IsGenuine fs label pattern include base_path max_depth =
    discover_with-IsGenuine fs label pattern include _ base_path max_depth
