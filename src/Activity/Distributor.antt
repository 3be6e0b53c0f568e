-- ===== src/Activity/Distributor.antt =====
-- activity.go: `parseDistributorLine` and `ScanDistributorActivity`. What depends on the time zone or
-- lists a directory by a pattern is asked of a record.
use directory_exporter.Common.{
  ℕ, zero, suc, ◌+◌, ℤ, pos, ltb_ℤ, leb_ℤ, Bool, ◌||◌, List, [], ◌∷◌, ◌++◌, codes, ◌==◌, Option,
  none, some, Bytes, if◌then◌else◌, is_empty, pos_part,
}
use directory_exporter.Types.{NodeActivity, StreamNode}
use directory_exporter.Go.Os.{Result, ok, err, FileSystem}
use directory_exporter.Go.Strings.{fields, contains, from_index, after_prefix, trim_space}
use directory_exporter.Go.FilePath.{join_path, base_name}
use directory_exporter.Go.Sort.{ltb_bytes, sort}
use directory_exporter.Go.Lines.{scan_lines}
use directory_exporter.Activity.Delay.{Instant, unix, delay_since}
use directory_exporter.Activity.Collector.{no_activity, activity_at}

-- `time.ParseInLocation` in the zone of `now`, `now.AddDate(0, 0, -d).Format("20060102")`, and
-- `filepath.Glob`.
pub record Clock : Type 0 where
  pub parse_in_location : Bytes → Bytes → Option Instant
  pub day_stamp : ℕ → Bytes
  pub glob : Bytes → Result (List Bytes)

abbrev pub mark : Bytes
mark = codes "Distributed file"

abbrev pub layouts : List Bytes
layouts =
    codes "20060102 15:04:05"
    ∷ codes "2006-01-02 15:04:05"
    ∷ codes "2006/01/02 15:04:05"
    ∷ codes "20060102 150405"
    ∷ []

-- The text in front of the first dot.
unfoldable pub before_dot : Bytes → Bytes
before_dot [] = []
before_dot (c ∷ s) = let rest = before_dot s in if c == b'.' then [] else c ∷ rest

-- Six digits without a colon get colons between the pairs.
unfoldable pub with_colons : Bytes → Bytes
with_colons (a ∷ b ∷ c ∷ d ∷ e ∷ f ∷ []) =
    let s = a ∷ b ∷ c ∷ d ∷ e ∷ f ∷ [] in
    if contains s (codes ":") then s else a ∷ b ∷ b':' ∷ c ∷ d ∷ b':' ∷ e ∷ f ∷ []
with_colons s = s

-- The colon behind the mark is passed over, with the white space behind it.
unfoldable pub after_colon : Bytes → Bytes
after_colon [] = []
after_colon (c ∷ r) = if c == b':' then trim_space r else c ∷ r

abbrev pub behind_mark : Bytes → Bytes
behind_mark text = elim (after_prefix text mark) [ none ↦ [] | some r ↦ r ]

-- The file name behind the mark, which the text starts with.
unfoldable pub distributed_file : Bytes → Option Bytes
unfolding after_colon
distributed_file text = elim (fields (after_colon (trim_space (behind_mark text)))) [
  | [] ↦ none
  | f ∷ _ ↦ some (base_name f)
]

-- The two words that a line starts with, with the time in the form that the layouts expect.
unfoldable pub line_stamp : Bytes → Option Bytes
unfolding before_dot with_colons
line_stamp line = elim (fields line) [
  | [] ↦ none
  | date ∷ words ↦ elim words [
    | [] ↦ none
    | time ∷ _ ↦ some (date ++ (b' ' ∷ with_colons (before_dot time)))
  ]
]

abbrev pub names_node : Bytes → Bytes → Bool
names_node line node =
    contains line (b'[' ∷ (node ++ b']' ∷ [])) || contains line (b'[' ∷ (node ++ b'.' ∷ []))

-- `latestTime`, `latestFile` and `found` after one more event.
abbrev pub later : Option (Instant × Bytes) → Instant × Bytes → Option (Instant × Bytes)
later none event = some event
later (some (t, file)) event = if ltb_ℤ t event.0 then some event else some (t, file)

module _ (fs : FileSystem) (clock : Clock) where
  unfoldable pub parse_layouts : List Bytes → Bytes → Option Instant
  parse_layouts [] stamp = none
  parse_layouts (l ∷ ls) stamp = elim (clock.parse_in_location l stamp) [
    | some t ↦ some t
    | none ↦ parse_layouts ls stamp
  ]

  -- The steps behind the test for the node.
  unfoldable pub parse_event : Bytes → Option (Instant × Bytes)
  unfolding distributed_file line_stamp parse_layouts
  parse_event line = elim (from_index line mark) [
    | none ↦ none
    | some text ↦ elim (distributed_file text) [
      | none ↦ none
      | some file ↦ elim (line_stamp line) [
        | none ↦ none
        | some stamp ↦ elim (parse_layouts layouts stamp) [ none ↦ none | some t ↦ some (t, file) ]
      ]
    ]
  ]

  unfoldable pub parse_distributor_line : Bytes → Bytes → Option (Instant × Bytes)
  unfolding parse_event
  parse_distributor_line line node = if names_node line node then parse_event line else none

  -- The loop over the lines of a file.
  unfoldable pub latest_in :
      Bytes → List Bytes → Option (Instant × Bytes) → Option (Instant × Bytes)
  unfolding parse_distributor_line
  latest_in node [] best = best
  latest_in node (line ∷ lines) best =
      latest_in node lines
        (elim (parse_distributor_line line node) [ none ↦ best | some event ↦ later best event ])

  -- The loop over the files of a day: it ends behind the first file with an event.
  unfoldable pub search_files : Bytes → List Bytes → Option (Instant × Bytes)
  unfolding latest_in
  search_files node [] = none
  search_files node (path ∷ paths) =
      let rest = search_files node paths in
      elim (fs.read_file path) [
        | err _ ↦ rest
        | ok text ↦ elim (latest_in node (scan_lines text) none) [
          | none ↦ rest
          | some event ↦ some event
        ]
      ]

  -- The pattern of the trace files of a day.
  abbrev pub trace_pattern : Bytes → Bytes → ℕ → Bytes
  trace_pattern tracelog_dir stream d =
      join_path tracelog_dir
        (codes "execution_trace_" ++ (stream ++ (b'_' ∷ (clock.day_stamp d ++ codes "_*"))))

  unfoldable pub search_day : Bytes → Bytes → Bytes → ℕ → Option (Instant × Bytes)
  unfolding search_files
  search_day tracelog_dir stream node d = elim (clock.glob (trace_pattern tracelog_dir stream d)) [
    | err _ ↦ none
    | ok paths ↦ search_files node (sort (λ a b. ltb_bytes b a) paths)
  ]

  -- The loop over the days: `left` of them, from day `d` back.
  unfoldable pub search_days : Bytes → Bytes → Bytes → ℕ → ℕ → Option (Instant × Bytes)
  unfolding search_day
  search_days tracelog_dir stream node zero d = none
  search_days tracelog_dir stream node (suc left) d =
      let back = search_days tracelog_dir stream node left (d + 1) in
      elim (search_day tracelog_dir stream node d) [ none ↦ back | some event ↦ some event ]

  unfoldable pub scan_distributor_activity : ℤ → Instant → Bytes → ℤ → StreamNode → NodeActivity
  unfolding search_days
  scan_distributor_activity min_delay now tracelog_dir lookback_days sn =
      if is_empty tracelog_dir || leb_ℤ lookback_days (pos 0)
      then no_activity sn (codes "distributor") (codes "-")
      else elim (search_days tracelog_dir sn.stream sn.node (pos_part lookback_days) 0) [
        | none ↦ no_activity sn (codes "distributor") (codes "-")
        | some (t, file) ↦
            activity_at sn (codes "distributor") file (unix t)
              (delay_since min_delay (unix now) (unix t))
      ]
