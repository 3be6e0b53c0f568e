-- ===== src/Scanner/StatCap.antt =====
-- How the cap on times and the count cap of `scanDir` meet.
use directory_exporter.Common.{
  ℕ, ◌+◌, ℤ, pos, ◌≤ℤ◌, Bool, true, List, [], ◌∷◌, Bytes, length, ◌≡◌, ◌⊎◌, arith, inl, inr, refl,
  Bool-cases, subst, sym, ap, ◌∙◌, false,
}
use directory_exporter.Go.Os.{FileSystem, DirEntry, Read, ok}
use directory_exporter.Scanner.{
  Scan, next, break, start_scan, note_time, tally, scan_round, scan_entries, scan_reads, scan_dir,
  scan_result,
}
use directory_exporter.Scanner.Spec.{stream, files, times}
use directory_exporter.Scanner.Loops.{
  Round-cases, entries-next, entries-break, reads_cases, scan_dir_opened, entries_grow,
}
use directory_exporter.Scanner.Uncut.{length-stream_good}
use directory_exporter.Scanner.Counting.{entries_count}

module _ (fs : FileSystem) (path : Bytes) (done : ℕ → Bool) (max_files max_stat_files : ℤ) where
  module _ (positive : pos 1 ≤ℤ max_stat_files) where
    round_stats :
        (e : DirEntry) (s t : Scan)
        → (scan_round fs path done max_files max_stat_files e s ≡ next t)
          ⊎ (scan_round fs path done max_files max_stat_files e s ≡ break t)
        → pos s.stats_done ≤ℤ max_stat_files
        → pos t.stats_done ≤ℤ max_stat_files
    unfolding scan_round tally note_time
    round_stats e s t p h = ground arith

    -- No more times are read than the cap on times allows.
    entries_stats :
        (es : List DirEntry) (s : Scan)
        → pos s.stats_done ≤ℤ max_stat_files
        → pos (scan_entries fs path done max_files max_stat_files es s).stats_done ≤ℤ max_stat_files
    unfolding scan_entries
    entries_stats [] s h = h
    entries_stats (e ∷ es) s h =
        elim (Round-cases (scan_round fs path done max_files max_stat_files e s)) [
          | inl (t, p) ↦
              subst (λ u. pos u.stats_done ≤ℤ max_stat_files)
                (sym (entries-next fs path done max_files max_stat_files e es s t p))
                (entries_stats es t (round_stats e s t (inl p) h))
          | inr (t, p) ↦
              subst (λ u. pos u.stats_done ≤ℤ max_stat_files)
                (sym (entries-break fs path done max_files max_stat_files e es s t p))
                (round_stats e s t (inr p) h)
        ]

    -- A list of entries with more times than the cap allows leaves the mark.
    entries_marked :
        (es : List DirEntry) (s : Scan)
        → s.stats_done ≡ 0
        → ¬ (pos (length (times (files fs path es))) ≤ℤ max_stat_files)
        → (scan_entries fs path done max_files max_stat_files es s).truncated ≡ true
    entries_marked es s zero_stats over =
        elim (Bool-cases (scan_entries fs path done max_files max_stat_files es s).truncated) [
          | inl marked ↦ marked
          | inr unmarked ↦
              let g = entries_grow fs path done max_files max_stat_files es s unmarked in
              absurd (omega (arith, g.stats, entries_stats es s (omega arith)))
        ]

  -- With a count cap set, a read that leaves the mark is the last one.
  marked_last :
      (r : Read) (rs : List Read) (s : Scan)
      → done s.polls ≡ false
      → (scan_entries fs path done max_files max_stat_files r.entries
          (record s { polls = s.polls + 1 })).truncated
        ≡ true
      → pos 1 ≤ℤ max_files
      → scan_reads fs path done max_files max_stat_files (r ∷ rs) s
        ≡ scan_entries fs path done max_files max_stat_files r.entries
            (record s { polls = s.polls + 1 })
  marked_last r rs s live marked positive =
      elim (reads_cases fs path done max_files max_stat_files r rs s) [
        | inl (ended, _) ↦ absurd (cc (live, ended))
        | inr (inl (p, _)) ↦ p
        | inr (inr (p, _, goes_on)) ↦ absurd (ground arith)
      ]

  -- Where the directory opens, the context never ends, the caps on the count and on times are set, and
  -- the first read does not fail, gives no more files than the count cap allows, and gives more times
  -- than the cap on times allows, the scan is marked as truncated, and its count is short of the files
  -- of all the reads by exactly those of the reads behind the first.
  pub stat_cap_stops_count :
      (elapsed : ℕ) (r : Read) (rs : List Read)
      → ((k : ℕ) → done k ≡ false)
      → fs.open_dir path ≡ ok (r ∷ rs)
      → r.failed ≡ false
      → pos 1 ≤ℤ max_files
      → pos (length (files fs path r.entries)) ≤ℤ max_files
      → pos 1 ≤ℤ max_stat_files
      → ¬ (pos (length (times (files fs path r.entries))) ≤ℤ max_stat_files)
      → ((scan_dir fs path done max_files max_stat_files elapsed).truncated ≡ true)
        × ((scan_dir fs path done max_files max_stat_files elapsed).file_count
              + length (files fs path (stream rs))
            ≡ length (files fs path (stream (r ∷ rs))))
  unfolding scan_result
  stat_cap_stops_count elapsed r rs never opens good positive fits stat_cap over =
      let s = record start_scan { polls = 1 } in
      let marked = entries_marked stat_cap r.entries s refl over in
      let counts =
        entries_count fs path done max_files max_stat_files never r.entries s
          (inr (omega (arith, fits))) in
      let same =
        scan_dir_opened fs path done max_files max_stat_files elapsed (r ∷ rs) opens
        ∙ ap (λ u. scan_result u elapsed) (marked_last r rs start_scan (never 0) marked positive) in
      (
        ap (λ u. u.truncated) same ∙ marked,
        omega (arith, ap (λ u. u.file_count) same ∙ counts, length-stream_good fs path r rs good),
      )
