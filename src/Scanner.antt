-- ===== src/Scanner.antt =====
-- scanner.go: `scanDir`. `ctx.Err() != nil` is a function of how often it was asked before, so
-- that a context may end between any two polls.
pub mod Spec
pub mod Loops
pub mod Exact
pub mod Caps
pub mod Uncut
pub mod Counting
pub mod StatCap
mod Tests
use directory_exporter.Common.{
  ℕ, ◌+◌, ℤ, pos, ltb, ltb_ℤ, leb_ℤ, min_int64, max_int64, Bool, true, false, ◌&&◌, List, [], ◌∷◌,
  Option, none, some, Bytes, Error, if◌then◌else◌,
}
use directory_exporter.Go.Os.{
  FileSystem, FileInfo, DirEntry, Read, ok, err, is_symlink, is_dir_entry,
}
use directory_exporter.Go.FilePath.{join_path}

-- The duration is in nanoseconds; timestamps and the success flag are the integers that the source
-- converts to `float64`.
pub record ScanResult : Type 0 where
  pub file_count : ℕ
  pub oldest_timestamp : ℤ
  pub newest_timestamp : ℤ
  pub scan_duration : ℕ
  pub scan_success : ℕ
  pub truncated : Bool
  pub error : Option Error

-- The loop variables, and how often the context was polled.
pub record Scan : Type 0 where
  pub count : ℕ
  pub stats_done : ℕ
  pub oldest : ℤ
  pub newest : ℤ
  pub truncated : Bool
  pub polls : ℕ

abbrev pub start_scan : Scan
start_scan = record {
  count = 0;
  stats_done = 0;
  oldest = max_int64;
  newest = min_int64;
  truncated = false;
  polls = 0;
}

-- One round of the loop over entries: go on, or `break`.
pub data Round : Type 0 where
  next : Scan → Round
  break : Scan → Round

-- `max > 0 && n >= max`
abbrev pub cap_hit : ℤ → ℕ → Bool
cap_hit cap n = ltb_ℤ (pos 0) cap && leb_ℤ cap (pos n)

-- The two comparisons with a file's modification time.
unfoldable pub note_time : ℤ → Scan → Scan
note_time mt s = record s {
  stats_done = s.stats_done + 1;
  oldest = if ltb_ℤ mt s.oldest then mt else s.oldest;
  newest = if ltb_ℤ s.newest mt then mt else s.newest;
}

abbrev pub note_info : Option ℤ → Scan → Scan
note_info none s = s
note_info (some mt) s = note_time mt s

-- The result is built from the loop variables; the last argument is `time.Since(start)`.
unfoldable pub scan_result : Scan → ℕ → ScanResult
scan_result s elapsed = record {
  file_count = s.count;
  oldest_timestamp = if ltb 0 s.stats_done then s.oldest else pos 0;
  newest_timestamp = if ltb 0 s.stats_done then s.newest else pos 0;
  scan_duration = elapsed;
  scan_success = 1;
  truncated = s.truncated;
  error = none;
}

module _ (fs : FileSystem) (path : Bytes) where
  -- The file behind a symlink, if it can be stat-ed and is no directory.
  unfoldable pub symlink_target : DirEntry → Option FileInfo
  symlink_target e = elim (fs.stat (join_path path e.name)) [
    | err _ ↦ none
    | ok info ↦ if info.is_dir then none else some info
  ]

  -- An entry that is counted, with the modification time that is read for it; `none` stands for
  -- the entries that are skipped.
  unfoldable pub counted : DirEntry → Option (Option ℤ)
  unfolding symlink_target
  counted e =
      if is_symlink e
      then elim (symlink_target e) [ none ↦ none | some info ↦ some (some info.mod_time) ]
      else if is_dir_entry e
      then none
      else some e.info

  module _ (done : ℕ → Bool) (max_files max_stat_files : ℤ) where
    -- From the count cap to the end of the round.
    unfoldable pub tally : Option ℤ → Scan → Round
    tally time s =
        if cap_hit max_files s.count
        then break (record s { truncated = true })
        else let t = record s { count = s.count + 1 } in
          if cap_hit max_stat_files t.stats_done
          then next (record t { truncated = true })
          else next (note_info time t)

    unfoldable pub scan_round : DirEntry → Scan → Round
    scan_round e s =
        let t = record s { polls = s.polls + 1 } in
        if done s.polls
        then break (record t { truncated = true })
        else elim (counted e) [ none ↦ next t | some time ↦ tally time t ]

    unfoldable pub scan_entries : List DirEntry → Scan → Scan
    scan_entries [] s = s
    scan_entries (e ∷ es) s = elim (scan_round e s) [ next t ↦ scan_entries es t | break t ↦ t ]

    -- The outer loop. Behind the last read `ReadDir` returns no entry and `io.EOF`.
    unfoldable pub scan_reads : List Read → Scan → Scan
    unfolding scan_entries
    scan_reads [] s =
        let t = record s { polls = s.polls + 1 } in
        if done s.polls then record t { truncated = true } else t
    scan_reads (r ∷ rs) s =
        let t = record s { polls = s.polls + 1 } in
        let u = scan_entries r.entries t in
        let rest = scan_reads rs u in
        if done s.polls
        then record t { truncated = true }
        else if u.truncated && ltb_ℤ (pos 0) max_files
        then u
        else if r.failed
        then u
        else rest

    unfoldable pub scan_dir : ℕ → ScanResult
    scan_dir elapsed = elim (fs.open_dir path) [
      | err e ↦ record {
        file_count = 0;
        oldest_timestamp = pos 0;
        newest_timestamp = pos 0;
        scan_duration = elapsed;
        scan_success = 0;
        truncated = false;
        error = some e;
      }
      | ok reads ↦ scan_result (scan_reads reads start_scan) elapsed
    ]
