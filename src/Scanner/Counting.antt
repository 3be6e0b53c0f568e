-- ===== src/Scanner/Counting.antt =====
-- The caps of `scanDir`: when the count is exact though times are left out.
use directory_exporter.Common.{
  ℕ, ◌+◌, ℤ, pos, ltb_ℤ, ◌≤ℤ◌, Bool, true, false, List, [], ◌∷◌, Bytes, length, ◌≡◌, arith, inl,
  inr, subst, sym,
}
use directory_exporter.Go.Os.{FileSystem, DirEntry, Read, ok}
use directory_exporter.Scanner.{
  Scan, next, start_scan, note_time, tally, scan_round, scan_entries, scan_reads, scan_dir,
  scan_result,
}
use directory_exporter.Scanner.Spec.{stream, files}
use directory_exporter.Scanner.Caps.{FitsCap}
use directory_exporter.Scanner.Loops.{Round-cases, entries-next, reads_cases, scan_dir_opened}
use directory_exporter.Scanner.Uncut.{
  Fits-le, length-files, length-stream_good, length-stream_failed, round_goes_on,
}

module _ (fs : FileSystem) (path : Bytes) (done : ℕ → Bool) (max_files max_stat_files : ℤ) where
  -- Where the context and the count cap do not end it, a round counts its file exactly.
  round_counts :
      (e : DirEntry) (s t : Scan)
      → done s.polls ≡ false
      → FitsCap max_files (s.count + length (files fs path (e ∷ [])))
      → scan_round fs path done max_files max_stat_files e s ≡ next t
      → t.count ≡ s.count + length (files fs path (e ∷ []))
  unfolding scan_round tally note_time
  round_counts e s t live off p = ground arith

  module _ (never : (k : ℕ) → done k ≡ false) where
    -- So do the rounds of a read.
    pub entries_count :
        (es : List DirEntry) (s : Scan)
        → FitsCap max_files (s.count + length (files fs path es))
        → (scan_entries fs path done max_files max_stat_files es s).count
          ≡ s.count + length (files fs path es)
    unfolding scan_entries
    entries_count [] s f = omega arith
    entries_count (e ∷ es) s f =
        let split = length-files fs path e es in
        let one =
          Fits-le max_files _ (s.count + length (files fs path (e ∷ []))) (omega (arith, split))
            f in
        elim (Round-cases (scan_round fs path done max_files max_stat_files e s)) [
          | inl (t, p) ↦
              let counts = round_counts e s t (never s.polls) one p in
              rw (entries-next fs path done max_files max_stat_files e es s t p) (
                omega (
                  arith,
                  entries_count es t (Fits-le max_files _ _ (omega (arith, split, counts)) f),
                  counts,
                  split,
                ))
          | inr (t, p) ↦
              absurd
                (round_goes_on fs path done max_files max_stat_files e s t (never s.polls) one p)
        ]

  module _ (never : (k : ℕ) → done k ≡ false) (off : max_files ≤ℤ pos 0) where
    end_count : (s : Scan) → (scan_reads fs path done max_files max_stat_files [] s).count ≡ s.count
    unfolding scan_reads
    end_count s = ground arith

    count_cap_off : ltb_ℤ (pos 0) max_files ≡ true → ⊥
    count_cap_off h = ground arith

    reads_count :
        (rs : List Read) (s : Scan)
        → (scan_reads fs path done max_files max_stat_files rs s).count
          ≡ s.count + length (files fs path (stream rs))
    reads_count [] s = omega (arith, end_count s)
    reads_count (r ∷ rs) s =
        let counts = entries_count never r.entries (record s { polls = s.polls + 1 }) (inl off) in
        elim (reads_cases fs path done max_files max_stat_files r rs s) [
          | inl (ended, _) ↦ cc (never s.polls)
          | inr (inl (p, inl (_, on))) ↦ absurd (count_cap_off on)
          | inr (inl (p, inr failed)) ↦
              rw p (omega (arith, counts, length-stream_failed fs path r rs failed))
          | inr (inr (p, good, _)) ↦
              rw p (omega (arith, counts, reads_count rs _, length-stream_good fs path r rs good))
        ]

  -- A scan of a directory that opens, with a context that never ends and no count cap, counts every
  -- file that the reads give, whatever the cap on times is.
  pub scan_dir_count_exact :
      (elapsed : ℕ) (reads : List Read)
      → ((k : ℕ) → done k ≡ false)
      → max_files ≤ℤ pos 0
      → fs.open_dir path ≡ ok reads
      → (scan_dir fs path done max_files max_stat_files elapsed).file_count
        ≡ length (files fs path (stream reads))
  unfolding scan_result
  scan_dir_count_exact elapsed reads never off opens =
      subst (λ r. r.file_count ≡ length (files fs path (stream reads)))
        (sym (scan_dir_opened fs path done max_files max_stat_files elapsed reads opens))
        (omega (arith, reads_count never off reads start_scan))
