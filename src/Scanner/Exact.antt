-- ===== src/Scanner/Exact.antt =====
-- What an uncut scan reports, and when a scan is not cut.
use native.Mathlib.Nat.{zero-add}
use directory_exporter.Common.{
  ℕ, ℤ, IsInt64, Bool, false, List, Option, none, Bytes, length, ◌≡◌, arith, refl, All,
}
use directory_exporter.Go.Os.{FileSystem, Read, ok}
use directory_exporter.Scanner.{Scan, start_scan, scan_dir, scan_result, ScanResult}
use directory_exporter.Scanner.Spec.{stream, files, times, Extremes, Extremes-lower}
use directory_exporter.Scanner.Loops.{Grown, reads_grow, scan_dir_opened}

-- The result counts every file of the directory, and its timestamps are those of the oldest and the
-- newest of the times that could be read, both 0 if there is none.
pub record IsExact (seen : List (Option ℤ)) (r : ScanResult) : Type 0 where
  pub success : r.scan_success ≡ 1
  pub no_error : r.error ≡ none
  pub count : r.file_count ≡ length seen
  pub extremes : Extremes (times seen) r.oldest_timestamp r.newest_timestamp

result-IsExact :
    (seen : List (Option ℤ)) (s : Scan) (elapsed : ℕ)
    → Grown seen start_scan s
    → All IsInt64 (times seen)
    → IsExact seen (scan_result s elapsed)
unfolding scan_result
result-IsExact seen s elapsed g ints = record {
  success = refl;
  no_error = refl;
  count = omega arith;
  extremes = rw (g.stats, g.oldest, g.newest, zero-add) (Extremes-lower (times seen) ints);
}

module _ (fs : FileSystem) (path : Bytes) (done : ℕ → Bool) (max_files max_stat_files : ℤ) where
  -- A scan of a directory that opens, whatever its caps and whenever its context ends: if the
  -- result is not marked as truncated, the flag is 1, there is no error, the count is the number of
  -- files that the reads give, and the timestamps are the oldest and the newest of the times that
  -- can be read (all of them `int64`), or both 0 if there is none.
  pub scan_dir-IsExact :
      (elapsed : ℕ) (reads : List Read)
      → fs.open_dir path ≡ ok reads
      → All IsInt64 (times (files fs path (stream reads)))
      → (scan_dir fs path done max_files max_stat_files elapsed).truncated ≡ false
      → IsExact
          (files fs path (stream reads))
          (scan_dir fs path done max_files max_stat_files elapsed)
  unfolding scan_result
  scan_dir-IsExact elapsed reads opens ints uncut =
      rw (scan_dir_opened fs path done max_files max_stat_files elapsed reads opens) (
        result-IsExact _ _ elapsed
          (reads_grow fs path done max_files max_stat_files reads start_scan (
            rw (scan_dir_opened fs path done max_files max_stat_files elapsed reads opens) at
              uncut))
          ints)
