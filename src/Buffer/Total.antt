-- ===== src/Buffer/Total.antt =====
-- What the buffer of a node reports against the counts of its paths.
use directory_exporter.Common.{
  ℕ, ◌+◌, ◌==◌, Bool, true, false, not, ◌&&◌, ◌||◌, List, [], ◌∷◌, Option, none, some, Bytes,
  if◌then◌else◌, is_empty, select, select-none, select-some, get, ◌≡◌, inl, inr, arith, refl, ap,
  ◌∙◌, Option-cases,
}
use directory_exporter.Types.{DirMetrics, StreamNode}
use directory_exporter.Go.Os.{FileSystem}
use directory_exporter.Go.FilePath.{clean}
use directory_exporter.Buffer.Count.{count_buffer_files}
use directory_exporter.Buffer.ScanAll.{Backlog, count_path, count_paths, node_buffer}

abbrev pub sum : List ℕ → ℕ
sum [] = 0
sum (n ∷ ns) = n + sum ns

abbrev pub all_some {ℓ κ} : {A : Type ℓ} {B : Type κ} → (A → Option B) → List A → Bool
all_some f [] = true
all_some f (x ∷ xs) = elim (f x) [ none ↦ false | some _ ↦ all_some f xs ]

module _ (fs : FileSystem) (ended : Bytes → Bytes → ℕ → Bool) (cached : List (Bytes × DirMetrics))
    (node_dir : Bytes) where
  -- The count of a path: that of the scan of the directory, if it succeeded, else that of a count, if
  -- that succeeds.
  abbrev pub counted_now : Bytes → Option ℕ
  counted_now p =
      let (n, success) = count_buffer_files fs (clean p) (ended node_dir p) in
      if success then some n else none

  abbrev pub path_count : Bytes → Option ℕ
  path_count p = elim (get (clean p) cached) [
    | none ↦ counted_now p
    | some dm ↦ if dm.scan_success == 1 then some dm.file_count else counted_now p
  ]

  step_none :
      (p : Bytes) (b : Backlog)
      → path_count p ≡ none
      → count_path fs ended cached node_dir p b ≡ record b { ok_all = false }
  unfolding count_path
  step_none p b h = ground arith

  step_some :
      (p : Bytes) (n : ℕ) (b : Backlog)
      → path_count p ≡ some n
      → count_path fs ended cached node_dir p b ≡ record b { total = b.total + n; any_ok = true }
  unfolding count_path
  step_some p n b h = ground arith

  missing :
      (p : Bytes) (ps : List Bytes) → path_count p ≡ none → all_some path_count (p ∷ ps) ≡ false
  missing p ps h = rw (h, all_some) refl

  found :
      (p : Bytes) (n : ℕ) (ps : List Bytes)
      → path_count p ≡ some n
      → all_some path_count (p ∷ ps) ≡ all_some path_count ps
  found p n ps h = rw (h, all_some) refl

  paths_cons :
      (p : Bytes) (ps : List Bytes) (b : Backlog)
      → count_paths fs ended cached node_dir (p ∷ ps) b
        ≡ count_paths fs ended cached node_dir ps (count_path fs ended cached node_dir p b)
  unfolding count_paths
  paths_cons p ps b = refl

  paths_nil : (b : Backlog) → count_paths fs ended cached node_dir [] b ≡ b
  unfolding count_paths
  paths_nil b = refl

  paths_total :
      (ps : List Bytes) (b : Backlog)
      → let c = count_paths fs ended cached node_dir ps b in
        (c.total ≡ b.total + sum (select path_count ps))
        × (c.ok_all ≡ (b.ok_all && all_some path_count ps))
        × (c.any_ok ≡ (b.any_ok || not (is_empty (select path_count ps))))
  paths_total [] b = rw (paths_nil b) (omega arith, ground arith, ground arith)
  paths_total (p ∷ ps) b = elim (Option-cases (path_count p)) [
    | inl h ↦
        let (t, o, a) = paths_total ps (record b { ok_all = false }) in
        rw (paths_cons p ps b, step_none p b h, select-none path_count p ps h, missing p ps h)
          (t, o ∙ ground arith, a)
    | inr (n, h) ↦
        let (t, o, a) = paths_total ps (record b { total = b.total + n; any_ok = true }) in
        rw (paths_cons p ps b, step_some p n b h, select-some path_count p ps n h, found p n ps h)
          (omega (arith, t), o, a ∙ ground arith)
  ]

  -- Where all of at least one path could be counted, one could.
  both :
      (ps : List Bytes) (ok_all any_ok : Bool)
      → ok_all ≡ (not (is_empty ps) && all_some path_count ps)
      → any_ok ≡ (false || not (is_empty (select path_count ps)))
      → (any_ok && ok_all) ≡ (not (is_empty ps) && all_some path_count ps)
  both [] ok_all any_ok o a = ground arith
  both (p ∷ ps) ok_all any_ok o a = elim (Option-cases (path_count p)) [
    | inl h ↦ ground (arith, missing p ps h)
    | inr (n, h) ↦
        let one : any_ok ≡ true =
          a ∙ ap (λ ns. not (is_empty ns)) (select-some path_count p ps n h) in
        ground (arith, found p n ps h)
  ]

-- The buffer of a node counts the files of all its paths that can be counted, each by the scan of the
-- directory if that succeeded, else by a count; it is a success where there is a path and every path
-- could be counted.
pub node_buffer_total :
    (fs : FileSystem) (ended : Bytes → Bytes → ℕ → Bool) (cached : List (Bytes × DirMetrics))
    (sn : StreamNode) (paths : List Bytes)
    → let counts = path_count fs ended cached sn.node_dir in
      ((node_buffer fs ended cached sn paths).file_count ≡ sum (select counts paths))
      × ((node_buffer fs ended cached sn paths).success
          ≡ (not (is_empty paths) && all_some counts paths))
unfolding node_buffer
node_buffer_total fs ended cached sn paths =
    let (t, o, a) =
      paths_total fs ended cached sn.node_dir paths
        (record { total = 0; ok_all = not (is_empty paths); any_ok = false }) in
    (omega (arith, t), both fs ended cached sn.node_dir paths _ _ o a)
