-- ===== src/Scanner/Tests.antt =====
-- A directory of two reads: files, a symlink to a file, one to a directory, a broken one, a
-- subdirectory, and a file whose time cannot be read.
use directory_exporter.Common.{
  ◌+◌, ℕ, ◌≤◌, pos, negsuc, Bool, true, false, List, [], eqb, codes, ◌∷◌, none, some, Bytes,
  if◌then◌else◌, length, ◌≡◌, arith, inr, refl,
}
use directory_exporter.Go.Os.{
  FileSystem, FileInfo, regular, directory, symlink, other, Read, Result, ok, err,
}
use directory_exporter.Go.FilePath.{join_path}
use directory_exporter.Scanner.{
  counted, scan_dir, scan_reads, scan_result, scan_round, tally, note_time,
}
use directory_exporter.Scanner.Spec.{stream, files}
use directory_exporter.Scanner.Exact.{IsExact, scan_dir-IsExact}
use directory_exporter.Scanner.Caps.{FitsCap, scan_dir_bounds}
use directory_exporter.Scanner.Uncut.{scan_dir_complete}
use directory_exporter.Scanner.Counting.{scan_dir_count_exact}
use directory_exporter.Scanner.StatCap.{stat_cap_stops_count}

abbrev first_read : Read
first_read = record {
  entries =
      record { name = codes "a"; entry_type = regular; info = some (pos 50) }
      ∷ record { name = codes "sub"; entry_type = directory; info = some (pos 1) }
      ∷ record { name = codes "to_file"; entry_type = symlink; info = some (pos 2) }
      ∷ record { name = codes "to_dir"; entry_type = symlink; info = some (pos 3) }
      ∷ record { name = codes "broken"; entry_type = symlink; info = none }
      ∷ [];
  failed = false;
}

abbrev second_read : Read
second_read = record {
  entries =
      record { name = codes "pipe"; entry_type = other; info = some (negsuc 8) }
      ∷ record { name = codes "gone"; entry_type = regular; info = none }
      ∷ record { name = codes "b"; entry_type = regular; info = some (pos 70) }
      ∷ [];
  failed = false;
}

abbrev reads : List Read
reads = first_read ∷ second_read ∷ []

abbrev dir : Bytes
dir = codes "/d"

stat_sample : Bytes → Result FileInfo
stat_sample p =
    if eqb p (codes "/d/to_file")
    then ok (record { is_dir = false; mod_time = pos 90 })
    else if eqb p (codes "/d/to_dir")
    then ok (record { is_dir = true; mod_time = pos 5 })
    else err (codes "no such file")

abbrev fs : FileSystem
fs = record {
  stat = stat_sample;
  open_dir = λ p. if eqb p dir then ok reads else err (codes "permission denied");
  read_dir = λ p. err [];
  read_file = λ p. err [];
  eval_symlinks = λ p. err [];
}

abbrev live : ℕ → Bool
live k = false

unlimited : scan_dir fs dir live (pos 0) (pos 0) 7 ≡ record {
  file_count = 5;
  oldest_timestamp = negsuc 8;
  newest_timestamp = pos 90;
  scan_duration = 7;
  scan_success = 1;
  truncated = false;
  error = none;
}
unfolding scan_dir scan_reads scan_round tally note_time scan_result counted join_path stat_sample
unlimited = refl

closed_directory :
    (scan_dir fs (codes "/e") live (pos 0) (pos 0) 7).error ≡ some (codes "permission denied")
unfolding scan_dir
closed_directory = refl

found :
    files fs dir (stream reads)
    ≡ some (pos 50) ∷ some (pos 90) ∷ some (negsuc 8) ∷ none ∷ some (pos 70) ∷ []
unfolding counted join_path stat_sample
found = refl

scan_dir-IsExact_example :
    IsExact (files fs dir (stream reads)) (scan_dir fs dir live (pos 0) (pos 0) 7)
unfolding scan_dir scan_reads scan_round tally note_time scan_result counted join_path stat_sample
scan_dir-IsExact_example =
    scan_dir-IsExact fs dir live (pos 0) (pos 0) 7 reads refl (omega arith) refl

scan_dir_bounds_example :
    ((scan_dir fs dir live (pos 2) (pos 0) 7).file_count ≤ length (files fs dir (stream reads)))
    × FitsCap (pos 2) (scan_dir fs dir live (pos 2) (pos 0) 7).file_count
scan_dir_bounds_example = scan_dir_bounds fs dir live (pos 2) (pos 0) 7 reads refl

scan_dir_complete_example : (scan_dir fs dir live (pos 9) (pos 5) 7).truncated ≡ false
unfolding counted join_path stat_sample
scan_dir_complete_example =
    scan_dir_complete fs dir live (pos 9) (pos 5) 7 reads (λ k. refl) refl (inr (omega arith))
      (inr (omega arith))

scan_dir_count_exact_example :
    (scan_dir fs dir live (pos 0) (pos 1) 7).file_count ≡ length (files fs dir (stream reads))
scan_dir_count_exact_example =
    scan_dir_count_exact fs dir live (pos 0) (pos 1) 7 reads (λ k. refl) (omega arith) refl

-- The count cap is 1000 and there are 5 files, but the count stops at 2.
undercount : ((scan_dir fs dir live (pos 1000) (pos 1) 7).file_count ≡ 2)
unfolding scan_dir scan_reads scan_round tally note_time scan_result counted join_path stat_sample
undercount = refl

stat_cap_stops_count_example :
    ((scan_dir fs dir live (pos 1000) (pos 1) 7).truncated ≡ true)
    × ((scan_dir fs dir live (pos 1000) (pos 1) 7).file_count
          + length (files fs dir (stream (second_read ∷ [])))
        ≡ length (files fs dir (stream (first_read ∷ second_read ∷ []))))
unfolding counted join_path stat_sample
stat_cap_stops_count_example =
    stat_cap_stops_count fs dir live (pos 1000) (pos 1) 7 first_read (second_read ∷ []) (λ k. refl)
      refl refl (omega arith) (omega arith) (omega arith) (omega arith)
