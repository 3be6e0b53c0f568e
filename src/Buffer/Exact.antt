-- ===== src/Buffer/Exact.antt =====
-- `countBufferFiles` against the files of the reads, and against `scanDir`.
use directory_exporter.Common.{
  ℕ, ◌+◌, ◌≤ℤ◌, ℤ, pos, Bool, true, false, not, List, [], ◌∷◌, Bytes, if◌then◌else◌, length, ◌≡◌,
  ◌⊎◌, arith, refl, ap, ◌∙◌, inl, inr,
}
use directory_exporter.Go.Os.{FileSystem, DirEntry, Read, ok}
use directory_exporter.Scanner.{counted, symlink_target, scan_dir}
use directory_exporter.Scanner.Spec.{stream, files}
use directory_exporter.Scanner.Uncut.{length-files, length-stream_good, length-stream_failed}
use directory_exporter.Scanner.Counting.{scan_dir_count_exact}
use directory_exporter.Buffer.Count.{
  Counting, counts, count_entries, count_reads, count_buffer_files,
}

module _ (fs : FileSystem) (path : Bytes) where
  -- The two functions skip the same entries.
  counts-counted :
      (e : DirEntry) → length (files fs path (e ∷ [])) ≡ (if counts fs path e then 1 else 0)
  unfolding counts counted symlink_target
  counts-counted e = ground arith

  module _ (done : ℕ → Bool) where
    entries-ended :
        (es : List DirEntry) (s : Counting)
        → (count_entries fs path done es s).ended ≡ false
        → s.ended ≡ false
    unfolding count_entries
    entries-ended [] s h = h
    entries-ended (e ∷ es) s h = ground (
      arith,
      entries-ended es (record s { polls = s.polls + 1; count = s.count + 1 }),
      entries-ended es (record s { polls = s.polls + 1 }),
    )

    entries_count :
        (es : List DirEntry) (s : Counting)
        → (count_entries fs path done es s).ended ≡ false
        → (count_entries fs path done es s).count ≡ s.count + length (files fs path es)
    unfolding count_entries
    entries_count [] s h = omega arith
    entries_count (e ∷ es) s h = ground (
      arith,
      length-files fs path e es,
      counts-counted e,
      entries_count es (record s { polls = s.polls + 1; count = s.count + 1 }),
      entries_count es (record s { polls = s.polls + 1 }),
    )

    reads_cases :
        (r : Read) (rs : List Read) (s : Counting)
        → let u = count_entries fs path done r.entries (record s { polls = s.polls + 1 }) in
          let v = count_reads fs path done (r ∷ rs) s in
          (v.ended ≡ false)
          → (u.ended ≡ false)
            × ((r.failed ≡ true) × (v ≡ u)
                ⊎ (r.failed ≡ false) × (v ≡ count_reads fs path done rs u))
    unfolding count_reads
    reads_cases r rs s h = ground arith

    end_count : (s : Counting) → (count_reads fs path done [] s).count ≡ s.count
    unfolding count_reads
    end_count s = ground arith

    reads_count :
        (rs : List Read) (s : Counting)
        → (count_reads fs path done rs s).ended ≡ false
        → (count_reads fs path done rs s).count ≡ s.count + length (files fs path (stream rs))
    reads_count [] s h = omega (arith, end_count s)
    reads_count (r ∷ rs) s h =
        let (live, outcome) = reads_cases r rs s h in
        let here = entries_count r.entries (record s { polls = s.polls + 1 }) live in
        elim outcome [
          | inl (failed, p) ↦ rw p (omega (arith, here, length-stream_failed fs path r rs failed))
          | inr (good, p) ↦ rw p (
              omega
                (arith, here, reads_count rs _ (rw p at h), length-stream_good fs path r rs good))
        ]

    count_opened :
        (reads : List Read)
        → fs.open_dir path ≡ ok reads
        → let s = count_reads fs path done reads (record { count = 0; polls = 0; ended = false }) in
          count_buffer_files fs path done ≡ (s.count, not s.ended)
    unfolding count_buffer_files
    count_opened reads opens = rw (opens, count_buffer_files) refl

    -- A count of a directory that opens, whenever its context ends: if it is reported as a success,
    -- it is the number of files that the reads give, by the rules of `scanDir`.
    count_buffer_files_exact :
        (reads : List Read)
        → fs.open_dir path ≡ ok reads
        → (count_buffer_files fs path done).1 ≡ true
        → (count_buffer_files fs path done).0 ≡ length (files fs path (stream reads))
    count_buffer_files_exact reads opens success =
        let s = count_reads fs path done reads (record { count = 0; polls = 0; ended = false }) in
        let live : s.ended ≡ false = ground (arith, count_opened reads opens) in
        ap (λ r. r.0) (count_opened reads opens) ∙ omega (arith, reads_count reads _ live)

    module _ (never : (k : ℕ) → done k ≡ false) where
      entries_live :
          (es : List DirEntry) (s : Counting)
          → s.ended ≡ false
          → (count_entries fs path done es s).ended ≡ false
      unfolding count_entries
      entries_live [] s h = h
      entries_live (e ∷ es) s h = ground (
        arith,
        never s.polls,
        entries_live es (record s { polls = s.polls + 1; count = s.count + 1 }),
        entries_live es (record s { polls = s.polls + 1 }),
      )

      reads_live :
          (rs : List Read) (s : Counting)
          → s.ended ≡ false
          → (count_reads fs path done rs s).ended ≡ false
      unfolding count_reads
      reads_live [] s h = ground (arith, never s.polls)
      reads_live (r ∷ rs) s h =
          let live = entries_live r.entries (record s { polls = s.polls + 1 }) h in
          ground (
            arith,
            never s.polls,
            reads_live rs (count_entries fs path done r.entries (record s { polls = s.polls + 1 }))
                live,
          )

  -- With contexts that never end and no caps, `countBufferFiles` reports a success and the count that
  -- `scanDir` reports for the same directory, so that the value reused from the directory scan is the
  -- one that would be counted.
  pub count_buffer_files-scan_dir :
      (done : ℕ → Bool) (max_files max_stat_files : ℤ) (elapsed : ℕ) (reads : List Read)
      → ((k : ℕ) → done k ≡ false)
      → max_files ≤ℤ pos 0
      → fs.open_dir path ≡ ok reads
      → count_buffer_files fs path done
        ≡ ((scan_dir fs path done max_files max_stat_files elapsed).file_count, true)
  count_buffer_files-scan_dir done max_files max_stat_files elapsed reads never off opens =
      let s = count_reads fs path done reads (record { count = 0; polls = 0; ended = false }) in
      let live : s.ended ≡ false = reads_live done never reads _ refl in
      let counts_all : s.count ≡ length (files fs path (stream reads)) =
        omega (arith, reads_count done reads _ live) in
      let scans =
        scan_dir_count_exact fs path done max_files max_stat_files elapsed reads never off opens in
      count_opened done reads opens ∙ rw (live, counts_all, scans) refl
