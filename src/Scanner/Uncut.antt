-- ===== src/Scanner/Uncut.antt =====
-- The caps of `scanDir`: when they leave a scan uncut.
use directory_exporter.Common.{
  ℕ, ◌+◌, ◌≤◌, ℤ, Bool, true, false, List, [], ◌∷◌, Bytes, if◌then◌else◌, length, ◌≡◌, arith, inl,
  inr, refl, subst, sym, length-append,
}
use directory_exporter.Go.Os.{FileSystem, DirEntry, Read, ok}
use directory_exporter.Scanner.{
  Scan, next, break, start_scan, note_time, tally, scan_round, scan_entries, scan_reads, scan_dir,
  scan_result,
}
use directory_exporter.Scanner.Spec.{stream, files}
use directory_exporter.Scanner.Loops.{
  Round-cases, entries-next, reads_cases, files-append, scan_dir_opened,
}
use directory_exporter.Scanner.Caps.{FitsCap}

-- A scan that has made no mark, and has read at most a time for each file.
record IsUncut (s : Scan) : Type 0 where
  unmarked : s.truncated ≡ false
  stats : s.stats_done ≤ s.count

pub Fits-le : (cap : ℤ) (n m : ℕ) → m ≤ n → FitsCap cap n → FitsCap cap m
Fits-le cap n m h f = ground arith

pub length-files :
    (fs : FileSystem) (path : Bytes) (e : DirEntry) (es : List DirEntry)
    → length (files fs path (e ∷ es)) ≡ length (files fs path (e ∷ [])) + length (files fs path es)
length-files fs path e es = rw (files-append fs path (e ∷ []) es) (length-append _ _)

pub length-stream :
    (fs : FileSystem) (path : Bytes) (r : Read) (rs : List Read)
    → length (files fs path (stream (r ∷ rs)))
      ≡ length (files fs path r.entries)
        + length (files fs path (if r.failed then [] else stream rs))
length-stream fs path r rs =
    rw (files-append fs path r.entries (if r.failed then [] else stream rs)) (length-append _ _)

pub length-stream_good :
    (fs : FileSystem) (path : Bytes) (r : Read) (rs : List Read)
    → r.failed ≡ false
    → length (files fs path (stream (r ∷ rs)))
      ≡ length (files fs path r.entries) + length (files fs path (stream rs))
length-stream_good fs path r rs good =
    subst
      (λ b.
        length (files fs path (stream (r ∷ rs)))
        ≡ length (files fs path r.entries) + length (files fs path (if b then [] else stream rs)))
      good (length-stream fs path r rs)

pub length-stream_failed :
    (fs : FileSystem) (path : Bytes) (r : Read) (rs : List Read)
    → r.failed ≡ true
    → length (files fs path (stream (r ∷ rs))) ≡ length (files fs path r.entries)
length-stream_failed fs path r rs failed = omega (
  arith,
  subst
      (λ b.
        length (files fs path (stream (r ∷ rs)))
        ≡ length (files fs path r.entries) + length (files fs path (if b then [] else stream rs)))
      failed (length-stream fs path r rs),
)

module _ (fs : FileSystem) (path : Bytes) (done : ℕ → Bool) (max_files max_stat_files : ℤ) where
  pub round_goes_on :
      (e : DirEntry) (s t : Scan)
      → done s.polls ≡ false
      → FitsCap max_files (s.count + length (files fs path (e ∷ [])))
      → scan_round fs path done max_files max_stat_files e s ≡ break t
      → ⊥
  unfolding scan_round tally note_time
  round_goes_on e s t live off p = ground arith

  round-IsUncut :
      (e : DirEntry) (s t : Scan)
      → done s.polls ≡ false
      → IsUncut s
      → FitsCap max_files (s.count + length (files fs path (e ∷ [])))
      → FitsCap max_stat_files (s.count + length (files fs path (e ∷ [])))
      → scan_round fs path done max_files max_stat_files e s ≡ next t
      → IsUncut t × (t.count ≡ s.count + length (files fs path (e ∷ [])))
  unfolding scan_round tally note_time
  round-IsUncut e s t live u f g p = ground arith

  module _ (never : (k : ℕ) → done k ≡ false) where
    entries-IsUncut :
        (es : List DirEntry) (s : Scan)
        → IsUncut s
        → FitsCap max_files (s.count + length (files fs path es))
        → FitsCap max_stat_files (s.count + length (files fs path es))
        → let t = scan_entries fs path done max_files max_stat_files es s in
          IsUncut t × (t.count ≡ s.count + length (files fs path es))
    unfolding scan_entries
    entries-IsUncut [] s u f g = (u, omega arith)
    entries-IsUncut (e ∷ es) s u f g =
        let split = length-files fs path e es in
        let f' =
          Fits-le max_files _ (s.count + length (files fs path (e ∷ []))) (omega (arith, split))
            f in
        let g' =
          Fits-le max_stat_files _ (s.count + length (files fs path (e ∷ [])))
            (omega (arith, split)) g in
        elim (Round-cases (scan_round fs path done max_files max_stat_files e s)) [
          | inl (t, p) ↦
              let (v, counts) = round-IsUncut e s t (never s.polls) u f' g' p in
              let (w, more) =
                entries-IsUncut es t v (Fits-le max_files _ _ (omega (arith, split)) f)
                  (Fits-le max_stat_files _ _ (omega (arith, split)) g) in
              rw (entries-next fs path done max_files max_stat_files e es s t p)
                (w, omega (arith, split))
          | inr (t, p) ↦ absurd (round_goes_on e s t (never s.polls) f' p)
        ]

    read-IsUncut :
        (es : List DirEntry) (s : Scan)
        → IsUncut s
        → FitsCap max_files (s.count + length (files fs path es))
        → FitsCap max_stat_files (s.count + length (files fs path es))
        → let t =
            scan_entries fs path done max_files max_stat_files es
              (record s { polls = s.polls + 1 }) in
          IsUncut t × (t.count ≡ s.count + length (files fs path es))
    read-IsUncut es s u =
        entries-IsUncut es (record s { polls = s.polls + 1 })
          (record { unmarked = u.unmarked; stats = u.stats })

    end_uncut :
        (s : Scan)
        → IsUncut s
        → (scan_reads fs path done max_files max_stat_files [] s).truncated ≡ false
    unfolding scan_reads
    end_uncut s u = ground (arith, never s.polls)

    reads_uncut :
        (rs : List Read) (s : Scan)
        → IsUncut s
        → FitsCap max_files (s.count + length (files fs path (stream rs)))
        → FitsCap max_stat_files (s.count + length (files fs path (stream rs)))
        → (scan_reads fs path done max_files max_stat_files rs s).truncated ≡ false
    reads_uncut [] s u f g = end_uncut s u
    reads_uncut (r ∷ rs) s u f g =
        let split = length-stream fs path r rs in
        let (v, counts) =
          read-IsUncut r.entries s u (Fits-le max_files _ _ (omega (arith, split)) f)
            (Fits-le max_stat_files _ _ (omega (arith, split)) g) in
        elim (reads_cases fs path done max_files max_stat_files r rs s) [
          | inl (ended, _) ↦ cc (never s.polls)
          | inr (inl (p, _)) ↦ rw p v.unmarked
          | inr (inr (p, good, _)) ↦
              let whole = length-stream_good fs path r rs good in
              rw p (
                reads_uncut rs _ v (Fits-le max_files _ _ (omega (arith, whole)) f)
                  (Fits-le max_stat_files _ _ (omega (arith, whole)) g))
        ]

  -- A scan of a directory that opens, with a context that never ends and caps that are off or at
  -- least the number of files, is not marked as truncated.
  pub scan_dir_complete :
      (elapsed : ℕ) (reads : List Read)
      → ((k : ℕ) → done k ≡ false)
      → fs.open_dir path ≡ ok reads
      → FitsCap max_files (length (files fs path (stream reads)))
      → FitsCap max_stat_files (length (files fs path (stream reads)))
      → (scan_dir fs path done max_files max_stat_files elapsed).truncated ≡ false
  unfolding scan_result
  scan_dir_complete elapsed reads never opens f g =
      subst (λ r. r.truncated ≡ false)
        (sym (scan_dir_opened fs path done max_files max_stat_files elapsed reads opens))
        (reads_uncut never reads start_scan (record { unmarked = refl; stats = omega arith })
          (Fits-le max_files _ _ (omega arith) f) (Fits-le max_stat_files _ _ (omega arith) g))
