-- ===== src/Watch/Pruned.antt =====
-- The pruned walk against one that reads every directory.
use mathlib.Core.List.{Memᴰ}
use directory_exporter.Common.{
  ℕ, zero, suc, ℤ, pos_part, Bool, true, false, List, [], Bool-cases, ◌∷◌, ◌++◌, Bytes, ◌≡◌, arith,
  inl, inr, refl, sym, subst, ◌∙◌, All, All-append,
}
use directory_exporter.Go.Os.{Result, ok, err, FileSystem, DirEntry}
use directory_exporter.Go.FilePath.{join_path, clean}
use directory_exporter.Go.Names.{IsName, joined}
use directory_exporter.Watch.Pattern.{match_pattern_prefix}
use directory_exporter.Watch.Walk.{
  Found, is_child_dir, walk_child, walk_children, enter, child_rel, with_entries, visit, walk,
  discover_with, discover_with_cases, start_walk, discover_directories,
}
use directory_exporter.Watch.Ancestors.{Keeps, walk_child-Keeps, walk-ancestors}
use directory_exporter.Watch.Genuine.{note_err-entries}
use directory_exporter.Watch.Idle.{
  HasNames, child_rel-joined, joined_none, Idle, enter-Idle, Barren, pruned-Barren_child, every,
  walk-Idle,
}

-- Two walks that find the same, from the same ancestors.
abbrev Agree : (Found → Found) → (Found → Found) → Type 0
Agree f g =
    (s t : Found)
    → s.entries ≡ t.entries
    → s.ancestors ≡ t.ancestors
    → (f s).entries ≡ (g t).entries

enter-Agree :
    (real : Result Bytes) (f g : Found → Found) → Agree f g → Agree (enter real f) (enter real g)
unfolding enter
enter-Agree (err _) f g agree s t p q = agree s t p q
enter-Agree (ok real) f g agree s t p q = ground (
  arith,
  agree (record s { ancestors = real ∷ s.ancestors }) (record t { ancestors = real ∷ t.ancestors }),
)

with_entries-Agree :
    (r : Result (List DirEntry)) (each also : List DirEntry → Found → Found)
    → ((es : List DirEntry) → r ≡ ok es → Agree (each es) (also es))
    → Agree (with_entries r each) (with_entries r also)
unfolding with_entries
with_entries-Agree (err e) each also agree s t p q =
    sym (note_err-entries e s) ∙ (p ∙ note_err-entries e t)
with_entries-Agree (ok es) each also agree s t p q = agree es refl s t p q

module _ (fs : FileSystem) (label pattern : Bytes) (include : List Bytes)
    (named : HasNames fs) where
  abbrev prune : Bytes → Bool
  prune rel = match_pattern_prefix pattern rel include

  module _ (pruned all : Bytes → Bytes → Found → Found) (path : Bytes) (ps : List Bytes)
      (hs : All IsName ps) where
    child-Agree :
        (e : DirEntry)
        → IsName e.name
        → Agree
            (pruned (join_path path e.name) (child_rel (joined ps) e.name))
            (all (join_path path e.name) (child_rel (joined ps) e.name))
        → (Barren fs label pattern include named (ps ++ e.name ∷ [])
            → Idle (all (join_path path e.name) (child_rel (joined ps) e.name)))
        → Agree
            (walk_child fs prune pruned path (joined ps) e)
            (walk_child fs every all path (joined ps) e)
    unfolding walk_child
    child-Agree e h agree idle s t p q =
        let child_path = join_path path e.name in
        let rel = child_rel (joined ps) e.name in
        let real = fs.eval_symlinks child_path in
        elim (Bool-cases (is_child_dir fs e child_path)) [
          | inl dir ↦ elim (Bool-cases (prune rel)) [
            | inl kept ↦ rw (dir, kept) (enter-Agree real _ _ agree s t p q)
            | inr refused ↦
                let barren = pruned-Barren_child fs label pattern include named ps e.name (
                  subst (λ r. match_pattern_prefix pattern r include ≡ false)
                    (child_rel-joined ps e.name hs h) refused) in
                rw (dir, refused) (p ∙ sym (enter-Idle real _ (idle barren) t))
          ]
          | inr other ↦ rw other p
        ]

  module _ (path : Bytes) (ps : List Bytes) (hs : All IsName ps) where
    children-Agree :
        (pruned all : Bytes → Bytes → Found → Found)
        → ((p q : Bytes) → Keeps (pruned p q))
        → ((p q : Bytes) → Keeps (all p q))
        → (es : List DirEntry) → ((e : DirEntry) → Memᴰ e es → IsName e.name)
        → ((e : DirEntry)
            → IsName e.name
            → Agree
                (pruned (join_path path e.name) (child_rel (joined ps) e.name))
                (all (join_path path e.name) (child_rel (joined ps) e.name)))
        → ((e : DirEntry)
            → IsName e.name
            → Barren fs label pattern include named (ps ++ e.name ∷ [])
            → Idle (all (join_path path e.name) (child_rel (joined ps) e.name)))
        → Agree
            (walk_children fs prune pruned path (joined ps) es)
            (walk_children fs every all path (joined ps) es)
    unfolding walk_children
    children-Agree pruned all keeps keeps_all [] names agree idle s t p q = p
    children-Agree pruned all keeps keeps_all (e ∷ es) names agree idle s t p q =
        let h = names e (Memᴰ.head refl) in
        children-Agree pruned all keeps keeps_all es (λ d m. names d (Memᴰ.tail m)) agree idle _ _
          (child-Agree pruned all path ps hs e h (agree e h) (idle e h) s t p q)
          (walk_child-Keeps fs prune pruned keeps path (joined ps) e s
            ∙ (q ∙ sym (walk_child-Keeps fs every all keeps_all path (joined ps) e t)))

  visit-Agree :
      (path rel : Bytes) (depth : ℕ) (s t : Found)
      → s.entries ≡ t.entries
      → s.ancestors ≡ t.ancestors
      → let u = visit label pattern include path rel depth s in
        let v = visit label pattern include path rel depth t in
        (u.0.entries ≡ v.0.entries) × (u.0.ancestors ≡ v.0.ancestors) × (u.1 ≡ v.1)
  unfolding visit
  visit-Agree path rel zero s t p q = (p, q, refl)
  visit-Agree path rel (suc depth) s t p q = ground arith

  walk-Agree :
      (left : ℕ) (path : Bytes) (ps : List Bytes) (depth : ℕ)
      → All IsName ps
      → Agree
          (walk fs label pattern include prune left path (joined ps) depth)
          (walk fs label pattern include every left path (joined ps) depth)
  unfolding walk
  walk-Agree zero path ps depth hs s t p q = (visit-Agree path (joined ps) depth s t p q).0
  walk-Agree (suc left) path ps depth hs s t p q =
      let below = λ (choose : Bytes → Bool) (d q : Bytes) (u : Found).
        walk fs label pattern include choose left d q (suc depth) u in
      let (entries, ancestors, goes_on) = visit-Agree path (joined ps) depth s t p q in
      let children = λ (es : List DirEntry) (listed : fs.read_dir path ≡ ok es).
        children-Agree path ps hs (below prune) (below every)
          (λ d r u. walk-ancestors fs label pattern include prune left d r (suc depth) u)
          (λ d r u. walk-ancestors fs label pattern include every left d r (suc depth) u) es
          (named path es listed)
          (λ e h.
            subst
              (λ rel.
                Agree (below prune (join_path path e.name) rel)
                  (below every (join_path path e.name) rel))
              (sym (child_rel-joined ps e.name hs h))
              (walk-Agree left (join_path path e.name) (ps ++ e.name ∷ []) (suc depth)
                (All-append IsName ps (e.name ∷ []) hs (h, tt))))
          (λ e h barren.
            subst (λ rel. Idle (below every (join_path path e.name) rel))
              (sym (child_rel-joined ps e.name hs h))
              (walk-Idle fs label pattern include named left (join_path path e.name)
                (ps ++ e.name ∷ []) depth barren
                (All-append IsName ps (e.name ∷ []) hs (h, tt)))) in
      elim (Bool-cases (visit label pattern include path (joined ps) depth t).1) [
        | inl on ↦
            rw (goes_on, on)
              (with_entries-Agree (fs.read_dir path)
                (walk_children fs prune (below prune) path (joined ps))
                (walk_children fs every (below every) path (joined ps)) children _ _ entries
                ancestors)
        | inr off ↦ rw (goes_on, off) entries
      ]

-- Pruning loses nothing: where the directories list proper names, `discoverDirectories` returns the
-- same entries, in the same order, as a search that reads every directory down to the depth.
pub discover_directories-unpruned :
    (fs : FileSystem) (label pattern : Bytes) (include : List Bytes) (base_path : Bytes)
    (max_depth : ℤ)
    → HasNames fs
    → (discover_directories fs label pattern include base_path max_depth).0
      ≡ (discover_with fs label pattern include (λ rel. true) base_path max_depth).0
unfolding discover_directories
discover_directories-unpruned fs label pattern include base_path max_depth named =
    elim (discover_with_cases fs label pattern include base_path max_depth) [
      | inl nothing ↦ nothing _ ∙ sym (nothing _)
      | inr found ↦
          found _
          ∙ (subst
                (λ rel.
                  Agree
                    (walk fs label pattern include (λ r. match_pattern_prefix pattern r include)
                      (pos_part max_depth) (clean base_path) rel 0)
                    (walk fs label pattern include (λ r. true) (pos_part max_depth)
                      (clean base_path) rel 0))
                joined_none
                (walk-Agree fs label pattern include named (pos_part max_depth) (clean base_path) []
                  0 tt)
                (start_walk fs (clean base_path)) (start_walk fs (clean base_path)) refl refl
              ∙ sym (found _))
    ]
