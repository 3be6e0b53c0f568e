-- ===== src/Buffer/Count.antt =====
-- buffer.go: `countBufferFiles`. The context is polled before each read and each entry.
use directory_exporter.Common.{ℕ, ◌+◌, Bool, true, false, not, List, [], ◌∷◌, Bytes, if◌then◌else◌}
use directory_exporter.Go.Os.{FileSystem, DirEntry, Read, ok, err, is_symlink, is_dir_entry}
use directory_exporter.Go.FilePath.{join_path}

-- The count, how often the context was polled, and whether it had ended.
pub record Counting : Type 0 where
  pub count : ℕ
  pub polls : ℕ
  pub ended : Bool

module _ (fs : FileSystem) (path : Bytes) where
  -- Whether an entry is counted.
  unfoldable pub counts : DirEntry → Bool
  counts e =
      if is_symlink e
      then elim (fs.stat (join_path path e.name)) [ err _ ↦ false | ok info ↦ not info.is_dir ]
      else not (is_dir_entry e)

  module _ (done : ℕ → Bool) where
    unfoldable pub count_entries : List DirEntry → Counting → Counting
    unfolding counts
    count_entries [] s = s
    count_entries (e ∷ es) s =
        let t = record s { polls = s.polls + 1 } in
        let rest = count_entries es (if counts e then record t { count = s.count + 1 } else t) in
        if done s.polls then record t { ended = true } else rest

    unfoldable pub count_reads : List Read → Counting → Counting
    unfolding count_entries
    count_reads [] s =
        let t = record s { polls = s.polls + 1 } in
        if done s.polls then record t { ended = true } else t
    count_reads (r ∷ rs) s =
        let t = record s { polls = s.polls + 1 } in
        let u = count_entries r.entries t in
        let rest = count_reads rs u in
        if done s.polls
        then record t { ended = true }
        else if u.ended
        then u
        else if r.failed
        then u
        else rest

    -- The count, and whether the directory was opened and read to its end.
    unfoldable pub count_buffer_files : ℕ × Bool
    unfolding count_reads
    count_buffer_files = elim (fs.open_dir path) [
      | err _ ↦ (0, false)
      | ok reads ↦
          let s = count_reads reads (record { count = 0; polls = 0; ended = false }) in
          (s.count, not s.ended)
    ]
