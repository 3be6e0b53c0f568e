-- ===== src/Watch/Ancestors.antt =====
-- The walk leaves the set of ancestors as it finds it.
use directory_exporter.Common.{
  member, ℕ, zero, suc, Bool, false, List, [], eqb_refl, ◌∷◌, Bytes, ◌≡◌, arith, refl, ◌∙◌,
}
use directory_exporter.Go.Os.{Result, ok, err, FileSystem, DirEntry}
use directory_exporter.Watch.Walk.{
  Found, remove, walk_child, walk_children, enter, child_rel, with_entries, visit, walk,
}
use directory_exporter.Go.FilePath.{join_path}

pub remove-absent : (k : Bytes) (ks : List Bytes) → member k ks ≡ false → remove k ks ≡ ks
unfolding member remove
remove-absent k [] h = refl
remove-absent k (j ∷ ks) h = ground (arith, remove-absent k ks)

-- What is added to the front, and was not there, is removed again.
pub remove-added : (k : Bytes) (ks : List Bytes) → member k ks ≡ false → remove k (k ∷ ks) ≡ ks
unfolding remove
remove-added k ks h = rw (eqb_refl k) (remove-absent k ks h)

-- A walk that keeps the ancestors.
abbrev pub Keeps : (Found → Found) → Type 0
Keeps f = (s : Found) → (f s).ancestors ≡ s.ancestors

pub enter-Keeps : (real : Result Bytes) (f : Found → Found) → Keeps f → Keeps (enter real f)
unfolding enter
enter-Keeps (err _) f keeps s = keeps s
enter-Keeps (ok real) f keeps s =
    ground
      (arith, keeps (record s { ancestors = real ∷ s.ancestors }), remove-added real s.ancestors)

with_entries-Keeps :
    (r : Result (List DirEntry)) (each : List DirEntry → Found → Found)
    → ((es : List DirEntry) → Keeps (each es))
    → Keeps (with_entries r each)
unfolding with_entries
with_entries-Keeps (err e) each keeps s = ground arith
with_entries-Keeps (ok es) each keeps s = keeps es s

module _ (fs : FileSystem) (prune : Bytes → Bool) (descend : Bytes → Bytes → Found → Found) where
  module _ (keeps : (path rel : Bytes) → Keeps (descend path rel)) (current rel_path : Bytes) where
    pub walk_child-Keeps : (e : DirEntry) → Keeps (walk_child fs prune descend current rel_path e)
    unfolding walk_child
    walk_child-Keeps e s =
        let path = join_path current e.name in
        let rel = child_rel rel_path e.name in
        ground (arith, enter-Keeps (fs.eval_symlinks path) (descend path rel) (keeps path rel) s)

    pub walk_children-Keeps :
        (es : List DirEntry) → Keeps (walk_children fs prune descend current rel_path es)
    unfolding walk_children
    walk_children-Keeps [] s = refl
    walk_children-Keeps (e ∷ es) s = walk_children-Keeps es _ ∙ walk_child-Keeps e s

module _ (fs : FileSystem) (label pattern : Bytes) (include : List Bytes)
    (prune : Bytes → Bool) where
  pub visit-Keeps :
      (current rel_path : Bytes) (depth : ℕ) (s : Found)
      → (visit label pattern include current rel_path depth s).0.ancestors ≡ s.ancestors
  unfolding visit
  visit-Keeps current rel_path zero s = refl
  visit-Keeps current rel_path (suc d) s = ground arith

  -- Whatever the walk meets, it takes each real path that it adds to the ancestors away again, so that
  -- they are always those of the directory that is being read.
  pub walk-ancestors :
      (left : ℕ) (current rel_path : Bytes) (depth : ℕ) (s : Found)
      → (walk fs label pattern include prune left current rel_path depth s).ancestors ≡ s.ancestors
  unfolding walk
  walk-ancestors zero current rel_path depth s = visit-Keeps current rel_path depth s
  walk-ancestors (suc left) current rel_path depth s =
      let t = (visit label pattern include current rel_path depth s).0 in
      let descend = λ (path rel : Bytes) (u : Found).
        walk fs label pattern include prune left path rel (suc depth) u in
      ground (
        arith,
        visit-Keeps current rel_path depth s,
        with_entries-Keeps (fs.read_dir current) (walk_children fs prune descend current rel_path)
            (walk_children-Keeps fs prune descend
              (λ path rel u. walk-ancestors left path rel (suc depth) u) current rel_path)
            t,
      )
