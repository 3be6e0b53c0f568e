-- ===== src/Scanner/Caps.antt =====
-- The caps of `scanDir`: what they bound, when they leave the count exact, and when they do not.
use directory_exporter.Common.{
  ℕ, ◌+◌, ◌≤◌, ℤ, pos, ◌≤ℤ◌, Bool, List, [], ◌∷◌, Bytes, if◌then◌else◌, length, ◌≡◌, ◌⊎◌, arith,
  inl, inr, subst, sym, length-append,
}
use directory_exporter.Go.Os.{FileSystem, DirEntry, Read, ok}
use directory_exporter.Scanner.{
  Scan, next, break, start_scan, note_time, tally, scan_round, scan_entries, scan_reads, scan_dir,
  scan_result,
}
use directory_exporter.Scanner.Spec.{stream, files}
use directory_exporter.Scanner.Loops.{
  Round-cases, entries-next, entries-break, reads_cases, files-append, scan_dir_opened,
}

-- A cap that is off, or that the number keeps.
abbrev pub FitsCap : ℤ → ℕ → Type 0
FitsCap cap n = (cap ≤ℤ pos 0) ⊎ (pos n ≤ℤ cap)

-- The count of `t` is at most that of `s` and `n` more, and stays within the count cap.
pub record Within (max_files : ℤ) (n : ℕ) (s t : Scan) : Type 0 where
  pub most : t.count ≤ s.count + n
  pub capped : FitsCap max_files s.count → FitsCap max_files t.count

Within-trans :
    (max_files : ℤ) (n m : ℕ) {s t u : Scan}
    → Within max_files n s t
    → Within max_files m t u
    → Within max_files (n + m) s u
Within-trans max_files n m v w = record { most = omega arith; capped = λ h. w.capped (v.capped h) }

module _ (fs : FileSystem) (path : Bytes) (done : ℕ → Bool) (max_files max_stat_files : ℤ) where
  round-Within :
      (e : DirEntry) (s t : Scan)
      → (scan_round fs path done max_files max_stat_files e s ≡ next t)
        ⊎ (scan_round fs path done max_files max_stat_files e s ≡ break t)
      → Within max_files (length (files fs path (e ∷ []))) s t
  unfolding scan_round tally note_time
  round-Within e s t h = ground arith

  pub entries-Within :
      (es : List DirEntry) (s : Scan)
      → Within max_files
          (length (files fs path es))
          s
          (scan_entries fs path done max_files max_stat_files es s)
  unfolding scan_entries
  entries-Within [] s = record { most = omega arith; capped = λ h. h }
  entries-Within (e ∷ es) s =
      elim (Round-cases (scan_round fs path done max_files max_stat_files e s)) [
        | inl (t, p) ↦
            rw
              (
                entries-next fs path done max_files max_stat_files e es s t p,
                files-append fs path (e ∷ []) es,
                length-append (files fs path (e ∷ [])) (files fs path es),
              )
              (Within-trans max_files _ _ (round-Within e s t (inl p)) (entries-Within es t))
        | inr (t, p) ↦
            let w = round-Within e s t (inr p) in
            rw
              (
                entries-break fs path done max_files max_stat_files e es s t p,
                files-append fs path (e ∷ []) es,
                length-append (files fs path (e ∷ [])) (files fs path es),
              )
              (record { most = omega arith; capped = w.capped })
      ]

  read-Within :
      (es : List DirEntry) (s : Scan)
      → Within max_files
          (length (files fs path es))
          s
          (scan_entries fs path done max_files max_stat_files es (record s { polls = s.polls + 1 }))
  read-Within es s =
      let w = entries-Within es (record s { polls = s.polls + 1 }) in
      record { most = w.most; capped = w.capped }

  end-Within :
      (s : Scan) → Within max_files 0 s (scan_reads fs path done max_files max_stat_files [] s)
  unfolding scan_reads
  end-Within s = ground arith

  Within-add : (n m : ℕ) {s t : Scan} → Within max_files n s t → Within max_files (n + m) s t
  Within-add n m w = record { most = omega arith; capped = w.capped }

  reads-Within :
      (rs : List Read) (s : Scan)
      → Within max_files
          (length (files fs path (stream rs)))
          s
          (scan_reads fs path done max_files max_stat_files rs s)
  reads-Within [] s = end-Within s
  reads-Within (r ∷ rs) s =
      rw
        (
          files-append fs path r.entries (if r.failed then [] else stream rs),
          length-append (files fs path r.entries)
              (files fs path (if r.failed then [] else stream rs)),
        )
        (elim (reads_cases fs path done max_files max_stat_files r rs s) [
          | inl (_, p) ↦ rw p (record { most = omega arith; capped = λ h. h })
          | inr (inl (p, _)) ↦ rw p (Within-add _ _ (read-Within r.entries s))
          | inr (inr (p, good, _)) ↦
              rw (p, good)
                (Within-trans max_files _ _ (read-Within r.entries s) (reads-Within rs _))
        ])

  -- Whatever the caps are and whenever the context ends, a scan of a directory that opens never
  -- counts more files than the reads give, and no more than a positive count cap.
  pub scan_dir_bounds :
      (elapsed : ℕ) (reads : List Read)
      → fs.open_dir path ≡ ok reads
      → ((scan_dir fs path done max_files max_stat_files elapsed).file_count
          ≤ length (files fs path (stream reads)))
        × FitsCap max_files (scan_dir fs path done max_files max_stat_files elapsed).file_count
  unfolding scan_result
  scan_dir_bounds elapsed reads opens =
      let w = reads-Within reads start_scan in
      subst
        (λ r.
          (r.file_count ≤ length (files fs path (stream reads))) × FitsCap max_files r.file_count)
        (sym (scan_dir_opened fs path done max_files max_stat_files elapsed reads opens))
        (omega (arith, w.most), w.capped (ground arith))
