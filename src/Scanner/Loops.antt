-- ===== src/Scanner/Loops.antt =====
-- The two loops of `scanDir` against one pass over all the entries.
use directory_exporter.Common.{
  ℕ, ◌+◌, ℤ, pos, ltb_ℤ, Bool, true, false, List, [], ◌∷◌, ◌++◌, Option, none, some, Bytes,
  if◌then◌else◌, length, ◌≡◌, ◌⊎◌, arith, inl, inr, refl, length-append, append-nil, ◌&&◌,
}
use directory_exporter.Go.Os.{FileSystem, DirEntry, Read, ok}
use directory_exporter.Scanner.{
  Scan, Round, next, break, note_time, tally, scan_round, scan_entries, scan_reads, start_scan,
  scan_result, scan_dir,
}
use directory_exporter.Scanner.Spec.{stream, files, times, lower, raise}

-- The scan `t` has seen the files `fs` behind those of `s`, and has read the time of each.
pub record Grown (seen : List (Option ℤ)) (s t : Scan) : Type 0 where
  pub untouched : s.truncated ≡ false
  pub counts : t.count ≡ s.count + length seen
  pub stats : t.stats_done ≡ s.stats_done + length (times seen)
  pub oldest : t.oldest ≡ lower s.oldest (times seen)
  pub newest : t.newest ≡ raise s.newest (times seen)

times-append : (xs ys : List (Option ℤ)) → times (xs ++ ys) ≡ times xs ++ times ys
times-append [] ys = refl
times-append (none ∷ xs) ys = times-append xs ys
times-append (some t ∷ xs) ys = rw (times-append xs ys)

lower-append : (o : ℤ) (xs ys : List ℤ) → lower o (xs ++ ys) ≡ lower (lower o xs) ys
lower-append o [] ys = refl
lower-append o (x ∷ xs) ys = lower-append (if ltb_ℤ x o then x else o) xs ys

raise-append : (n : ℤ) (xs ys : List ℤ) → raise n (xs ++ ys) ≡ raise (raise n xs) ys
raise-append n [] ys = refl
raise-append n (x ∷ xs) ys = raise-append (if ltb_ℤ n x then x else n) xs ys

pub files-append :
    (fs : FileSystem) (path : Bytes) (xs ys : List DirEntry)
    → files fs path (xs ++ ys) ≡ files fs path xs ++ files fs path ys
files-append fs path [] ys = refl
files-append fs path (x ∷ xs) ys = ground (arith, files-append fs path xs ys)

Grown-refl : (s : Scan) → s.truncated ≡ false → Grown [] s s
Grown-refl s h = ground arith

Grown-trans :
    (xs ys : List (Option ℤ)) {s t u : Scan} → Grown xs s t → Grown ys t u → Grown (xs ++ ys) s u
Grown-trans xs ys {s} {t} {u} g h =
    let stats : length (times (xs ++ ys)) ≡ length (times xs) + length (times ys) =
      rw (times-append xs ys) (length-append (times xs) (times ys)) in
    record {
      untouched = g.untouched;
      counts = omega (arith, length-append xs ys);
      stats = omega arith;
      oldest =
          cc (h.oldest, g.oldest, times-append xs ys, lower-append s.oldest (times xs) (times ys));
      newest =
          cc (h.newest, g.newest, times-append xs ys, raise-append s.newest (times xs) (times ys));
    }

pub Round-cases : (r : Round) → ((t : Scan) × (r ≡ next t)) ⊎ ((t : Scan) × (r ≡ break t))
Round-cases (next t) = inl (t, refl)
Round-cases (break t) = inr (t, refl)

module _ (fs : FileSystem) (path : Bytes) (done : ℕ → Bool) (max_files max_stat_files : ℤ) where
  -- A round that goes on and leaves no mark has counted its entry, if that is a file.
  round_grows :
      (e : DirEntry) (s t : Scan)
      → scan_round fs path done max_files max_stat_files e s ≡ next t
      → t.truncated ≡ false
      → Grown (files fs path (e ∷ [])) s t
  unfolding scan_round tally note_time
  round_grows e s t h u = ground arith

  round_breaks :
      (e : DirEntry) (s t : Scan)
      → scan_round fs path done max_files max_stat_files e s ≡ break t
      → t.truncated ≡ true
  unfolding scan_round tally
  round_breaks e s t h = ground arith

  pub entries-next :
      (e : DirEntry) (es : List DirEntry) (s t : Scan)
      → scan_round fs path done max_files max_stat_files e s ≡ next t
      → scan_entries fs path done max_files max_stat_files (e ∷ es) s
        ≡ scan_entries fs path done max_files max_stat_files es t
  unfolding scan_entries
  entries-next e es s t p = rw (p, scan_entries)

  pub entries-break :
      (e : DirEntry) (es : List DirEntry) (s t : Scan)
      → scan_round fs path done max_files max_stat_files e s ≡ break t
      → scan_entries fs path done max_files max_stat_files (e ∷ es) s ≡ t
  unfolding scan_entries
  entries-break e es s t p = rw (p, scan_entries)

  -- A read is the last one if the context has ended, if the loop over its entries left a mark, or if
  -- it failed.
  pub reads_cases :
      (r : Read) (rs : List Read) (s : Scan)
      → let t = record s { polls = s.polls + 1 } in
        let u = scan_entries fs path done max_files max_stat_files r.entries t in
        let v = scan_reads fs path done max_files max_stat_files (r ∷ rs) s in
        ((done s.polls ≡ true) × (v ≡ record t { truncated = true }))
        ⊎ ((v ≡ u) × ((u.truncated ≡ true) × (ltb_ℤ (pos 0) max_files ≡ true) ⊎ (r.failed ≡ true)))
        ⊎ ((v ≡ scan_reads fs path done max_files max_stat_files rs u)
            × (r.failed ≡ false)
            × ((u.truncated && ltb_ℤ (pos 0) max_files) ≡ false))
  unfolding scan_reads
  reads_cases r rs s = ground arith

  pub entries_grow :
      (es : List DirEntry) (s : Scan)
      → (scan_entries fs path done max_files max_stat_files es s).truncated ≡ false
      → Grown (files fs path es) s (scan_entries fs path done max_files max_stat_files es s)
  unfolding scan_entries
  entries_grow [] s u = Grown-refl s u
  entries_grow (e ∷ es) s u =
      elim (Round-cases (scan_round fs path done max_files max_stat_files e s)) [
        | inl (t, p) ↦
            let g = entries_grow es t (rw (entries-next e es s t p) at u) in
            rw (entries-next e es s t p, files-append fs path (e ∷ []) es)
              (Grown-trans (files fs path (e ∷ [])) (files fs path es)
                (round_grows e s t p g.untouched) g)
        | inr (t, p) ↦
            let contrary : t.truncated ≡ false = rw (entries-break e es s t p) at u in
            absurd (ground (arith, round_breaks e s t p))
      ]

  -- The rounds of one read, from the poll before it.
  read_grows :
      (es : List DirEntry) (s : Scan)
      → let u =
          scan_entries fs path done max_files max_stat_files es
            (record s { polls = s.polls + 1 }) in
        u.truncated ≡ false → Grown (files fs path es) s u
  read_grows es s h = ground (arith, entries_grow es (record s { polls = s.polls + 1 }))

  end_grows :
      (s : Scan)
      → (scan_reads fs path done max_files max_stat_files [] s).truncated ≡ false
      → Grown [] s (scan_reads fs path done max_files max_stat_files [] s)
  unfolding scan_reads
  end_grows s u = ground arith

  -- Where nothing was cut off, the loops have counted every file and read every time.
  pub reads_grow :
      (rs : List Read) (s : Scan)
      → (scan_reads fs path done max_files max_stat_files rs s).truncated ≡ false
      → Grown (files fs path (stream rs)) s (scan_reads fs path done max_files max_stat_files rs s)
  reads_grow [] s u = end_grows s u
  reads_grow (r ∷ rs) s u = elim (reads_cases r rs s) [
    | inl (_, p) ↦ cc
    | inr (inl (p, inl (cut, _))) ↦ cc
    | inr (inl (p, inr failed)) ↦ rw (p, failed, append-nil) (read_grows r.entries s (rw p at u))
    | inr (inr (p, good, _)) ↦
        let g = reads_grow rs _ (rw p at u) in
        rw (p, good, files-append fs path r.entries (stream rs))
          (Grown-trans _ _ (read_grows r.entries s g.untouched) g)
  ]

  pub scan_dir_opened :
      (elapsed : ℕ) (reads : List Read)
      → fs.open_dir path ≡ ok reads
      → scan_dir fs path done max_files max_stat_files elapsed
        ≡ scan_result (scan_reads fs path done max_files max_stat_files reads start_scan) elapsed
  unfolding scan_dir
  scan_dir_opened elapsed reads opens = rw (opens, scan_dir)
