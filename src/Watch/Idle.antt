-- ===== src/Watch/Idle.antt =====
-- Where no path below matches, the walk that reads every directory finds nothing.
use mathlib.Core.List.{Memᴰ}
use directory_exporter.Common.{
  ℕ, zero, suc, Bool, true, false, List, [], Bool-cases, ◌∷◌, ◌++◌, append_assoc, append-nil, Bytes,
  ◌≡◌, ◌≢◌, arith, inl, inr, refl, sym, subst, ◌∙◌, All, All-append,
}
use directory_exporter.Go.Os.{Result, ok, err, FileSystem, DirEntry}
use directory_exporter.Go.FilePath.{join_path}
use directory_exporter.Go.Strings.{join}
use directory_exporter.Go.Names.{IsName, joined, join_path-joined, joined-filled}
use directory_exporter.Watch.Pattern.{match_pattern, match_pattern_prefix}
use directory_exporter.Watch.Prefix.{match_pattern_prefix-parent}
use directory_exporter.Watch.Walk.{
  Found, walk_child, walk_children, enter, child_rel, with_entries, visit, walk,
}
use directory_exporter.Watch.Genuine.{note_err-entries, visit_cases}

-- The names that a directory lists are names, as on every file system.
abbrev pub HasNames : FileSystem → Type 0
HasNames fs =
    (path : Bytes) (es : List DirEntry)
    → fs.read_dir path ≡ ok es
    → (e : DirEntry) → Memᴰ e es
    → IsName e.name

-- The relative path of a child is that of its names.
pub child_rel-joined :
    (ps : List Bytes) (n : Bytes)
    → All IsName ps
    → IsName n
    → child_rel (joined ps) n ≡ joined (ps ++ n ∷ [])
unfolding join
child_rel-joined [] n hs h = refl
child_rel-joined (p ∷ ps) n hs h = rw (joined-filled p ps hs) (join_path-joined p ps n hs h)

pub joined_none : joined [] ≡ []
unfolding join
joined_none = refl

-- A walk that finds nothing.
abbrev pub Idle : (Found → Found) → Type 0
Idle f = (s : Found) → (f s).entries ≡ s.entries

pub enter-Idle : (real : Result Bytes) (f : Found → Found) → Idle f → Idle (enter real f)
unfolding enter
enter-Idle (err _) f idle s = idle s
enter-Idle (ok real) f idle s = ground (arith, idle (record s { ancestors = real ∷ s.ancestors }))

with_entries-Idle :
    (r : Result (List DirEntry)) (each : List DirEntry → Found → Found)
    → ((es : List DirEntry) → r ≡ ok es → Idle (each es))
    → Idle (with_entries r each)
unfolding with_entries
with_entries-Idle (err e) each idle s = sym (note_err-entries e s)
with_entries-Idle (ok es) each idle s = idle es refl s

-- The test that prunes nothing.
abbrev pub every : Bytes → Bool
every rel = true

module _ (fs : FileSystem) (label pattern : Bytes) (include : List Bytes)
    (named : HasNames fs) where
  -- No path that begins with these names matches.
  abbrev pub Barren : List Bytes → Type 0
  Barren ps =
      (ys : List Bytes)
      → All IsName (ps ++ ys)
      → match_pattern pattern (joined (ps ++ ys)) include ≢ ok true

  Barren-child : (ps : List Bytes) (n : Bytes) → Barren ps → Barren (ps ++ n ∷ [])
  Barren-child ps n barren ys =
      subst (λ qs. All IsName qs → match_pattern pattern (joined qs) include ≢ ok true)
        (sym (append_assoc ps (n ∷ []) ys)) (barren (n ∷ ys))

  -- What the pruning test refuses is barren.
  pruned-Barren :
      (p : Bytes) (ps : List Bytes)
      → match_pattern_prefix pattern (joined (p ∷ ps)) include ≡ false
      → Barren (p ∷ ps)
  pruned-Barren p ps refused ys hs h = cc (match_pattern_prefix-parent pattern include p ps ys hs h)

  pub pruned-Barren_child :
      (ps : List Bytes) (n : Bytes)
      → match_pattern_prefix pattern (joined (ps ++ n ∷ [])) include ≡ false
      → Barren (ps ++ n ∷ [])
  pruned-Barren_child [] n = pruned-Barren n []
  pruned-Barren_child (p ∷ ps) n = pruned-Barren p (ps ++ n ∷ [])

  children-Idle :
      (descend : Bytes → Bytes → Found → Found) (path rel : Bytes) (es : List DirEntry)
      → ((e : DirEntry) → Memᴰ e es → Idle (descend (join_path path e.name) (child_rel rel e.name)))
      → Idle (walk_children fs every descend path rel es)
  unfolding walk_children walk_child
  children-Idle descend path rel [] idle s = refl
  children-Idle descend path rel (e ∷ es) idle s =
      let into = descend (join_path path e.name) (child_rel rel e.name) in
      children-Idle descend path rel es (λ d m. idle d (Memᴰ.tail m)) _
      ∙ ground (
        arith,
        enter-Idle (fs.eval_symlinks (join_path path e.name)) into (idle e (Memᴰ.head refl)) s,
      )

  visit-Idle :
      (path : Bytes) (ps : List Bytes) (depth : ℕ)
      → Barren ps
      → All IsName ps
      → Idle (λ s. (visit label pattern include path (joined ps) (suc depth) s).0)
  visit-Idle path ps depth barren hs s =
      elim (visit_cases fs [] label pattern include 0 path (joined ps) depth s) [
        | inl same ↦ same
        | inr (matches, _) ↦ absurd (
            barren [] (subst (All IsName) (sym (append-nil ps)) hs) (
              subst (λ qs. match_pattern pattern (joined qs) include ≡ ok true)
                (sym (append-nil ps)) matches))
      ]

  -- Below a barren path the walk that reads everything finds nothing.
  pub walk-Idle :
      (left : ℕ) (path : Bytes) (ps : List Bytes) (depth : ℕ)
      → Barren ps
      → All IsName ps
      → Idle (walk fs label pattern include every left path (joined ps) (suc depth))
  unfolding walk
  walk-Idle zero path ps depth barren hs s = visit-Idle path ps depth barren hs s
  walk-Idle (suc left) path ps depth barren hs s =
      let t = (visit label pattern include path (joined ps) (suc depth) s).0 in
      let descend = λ (p q : Bytes) (u : Found).
        walk fs label pattern include every left p q (suc (suc depth)) u in
      let below = λ (es : List DirEntry) (listed : fs.read_dir path ≡ ok es).
        children-Idle descend path (joined ps) es (λ e m.
          let h = named path es listed e m in
          subst (λ rel. Idle (descend (join_path path e.name) rel))
            (sym (child_rel-joined ps e.name hs h))
            (walk-Idle left (join_path path e.name) (ps ++ e.name ∷ []) (suc depth)
              (Barren-child ps e.name barren) (All-append IsName ps (e.name ∷ []) hs (h, tt)))) in
      let visited = visit-Idle path ps depth barren hs s in
      elim (Bool-cases (visit label pattern include path (joined ps) (suc depth) s).1) [
        | inl on ↦ rw on (
            with_entries-Idle (fs.read_dir path) (walk_children fs every descend path (joined ps))
              below t
            ∙ visited)
        | inr off ↦ rw off visited
      ]
