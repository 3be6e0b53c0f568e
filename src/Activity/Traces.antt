-- ===== src/Activity/Traces.antt =====
-- activity.go: what `ScanDistributorActivity` reports, told by the trace files in the order in which
-- they are searched.
use directory_exporter.Common.{
  ℕ, zero, suc, ◌+◌, ℤ, pos, leb_ℤ, ◌||◌, List, [], ◌∷◌, ◌++◌, Option, none, some, Bytes, ◌≡◌, ◌⊎◌,
  inl, inr, refl, ◌∙◌, sym, ap, subst, select, select-none, select-some, All, Option-cases,
  Bool-cases, is_empty, pos_part, codes, if◌then◌else◌,
}
use directory_exporter.Types.{StreamNode}
use directory_exporter.Go.Os.{FileSystem, Result, Result-cases, ok, err}
use directory_exporter.Go.Lines.{scan_lines}
use directory_exporter.Go.Sort.{ltb_bytes, sort}
use directory_exporter.Activity.Delay.{Instant, unix, delay_since}
use directory_exporter.Activity.Collector.{no_activity, activity_at}
use directory_exporter.Activity.Distributor.{
  Clock, latest_in, search_files, search_day, search_days, trace_pattern, scan_distributor_activity,
}
use directory_exporter.Activity.Latest.{IsLatest, events, latest_in-IsLatest}

abbrev pub read_lines : Result Bytes → Option (List Bytes)
read_lines (err e) = none
read_lines (ok text) = some (scan_lines text)

-- Files that a pattern matches; an error matches none.
abbrev pub matched : Result (List Bytes) → List Bytes
matched (err e) = []
matched (ok paths) = paths

module _ (fs : FileSystem) (clock : Clock) (tracelog_dir stream : Bytes) where
  -- The lines of the trace files of a day that can be read, the last file name first.
  abbrev pub day_traces : ℕ → List (List Bytes)
  day_traces d =
      select (λ p. read_lines (fs.read_file p))
        (sort (λ a b. ltb_bytes b a)
          (matched (clock.glob (trace_pattern fs clock tracelog_dir stream d))))

  -- Those of `left` days, from day `d` back.
  unfoldable pub traces : ℕ → ℕ → List (List Bytes)
  traces zero d = []
  traces (suc left) d = day_traces d ++ traces left (d + 1)

  module _ (node : Bytes) where
    first_event : List (List Bytes) → Option (Instant × Bytes)
    first_event [] = none
    first_event (lines ∷ rest) = elim (latest_in fs clock node lines none) [
      | none ↦ first_event rest
      | some e ↦ some e
    ]

    or_else : Option (Instant × Bytes) → Option (Instant × Bytes) → Option (Instant × Bytes)
    or_else none b = b
    or_else (some e) b = some e

    first_event-append :
        (xs ys : List (List Bytes))
        → first_event (xs ++ ys) ≡ or_else (first_event xs) (first_event ys)
    unfolding first_event or_else
    first_event-append [] ys = refl
    first_event-append (x ∷ xs) ys = elim (Option-cases (latest_in fs clock node x none)) [
      | inl p ↦ rw (p, first_event) (first_event-append xs ys)
      | inr (e, p) ↦ rw (p, first_event) refl
    ]

    search_files-first :
        (paths : List Bytes)
        → search_files fs clock node paths
          ≡ first_event (select (λ p. read_lines (fs.read_file p)) paths)
    unfolding search_files first_event
    search_files-first [] = refl
    search_files-first (p ∷ ps) = elim (Result-cases (fs.read_file p)) [
      | inl (e, q) ↦
          rw
            (q, search_files, select-none (λ p. read_lines (fs.read_file p)) p ps (ap read_lines q))
            (search_files-first ps)
      | inr (text, q) ↦ elim (Option-cases (latest_in fs clock node (scan_lines text) none)) [
        | inl r ↦
            rw
              (
                select-some (λ p. read_lines (fs.read_file p)) p ps (scan_lines text)
                    (ap read_lines q),
                q,
                search_files,
                r,
                first_event,
              )
              (search_files-first ps)
        | inr (e, r) ↦
            rw
              (
                select-some (λ p. read_lines (fs.read_file p)) p ps (scan_lines text)
                    (ap read_lines q),
                q,
                search_files,
                r,
                first_event,
              )
              refl
      ]
    ]

    search_day-first :
        (d : ℕ) → search_day fs clock tracelog_dir stream node d ≡ first_event (day_traces d)
    unfolding search_day sort first_event
    search_day-first d =
        elim (Result-cases (clock.glob (trace_pattern fs clock tracelog_dir stream d))) [
          | inl (e, p) ↦ rw (p, search_day) refl
          | inr (paths, p) ↦ rw (p, search_day) (search_files-first _)
        ]

    search_days-step :
        (left d : ℕ)
        → search_days fs clock tracelog_dir stream node (suc left) d
          ≡ or_else
              (search_day fs clock tracelog_dir stream node d)
              (search_days fs clock tracelog_dir stream node left (d + 1))
    unfolding search_days or_else
    search_days-step left d = elim (Option-cases (search_day fs clock tracelog_dir stream node d)) [
      | inl p ↦ rw (p, search_days) refl
      | inr (e, p) ↦ rw (p, search_days) refl
    ]

    search_days-first :
        (left d : ℕ)
        → search_days fs clock tracelog_dir stream node left d ≡ first_event (traces left d)
    unfolding search_days traces first_event
    search_days-first zero d = refl
    search_days-first (suc left) d =
        search_days-step left d
        ∙ rw (search_day-first d, search_days-first left (d + 1))
            (sym (first_event-append (day_traces d) (traces left (d + 1))))

    -- No file of the list has an event of the node.
    abbrev pub HasNoEvent : List (List Bytes) → Type 0
    HasNoEvent = All (λ lines. events fs clock node lines ≡ [])

    -- The event is the latest of a file of the list, and the files in front of that have none.
    pub record IsFound (files : List (List Bytes)) (e : Instant × Bytes) : Type 0 where
      pub before : List (List Bytes)
      pub lines : List Bytes
      pub behind : List (List Bytes)
      pub parts : files ≡ before ++ lines ∷ behind
      pub barren : HasNoEvent before
      pub latest : IsLatest (events fs clock node lines) (some e)

    latest-none :
        (lines : List Bytes)
        → latest_in fs clock node lines none ≡ none
        → events fs clock node lines ≡ []
    latest-none lines p =
        subst (IsLatest (events fs clock node lines)) p (latest_in-IsLatest fs clock node lines)

    first_event-outcome :
        (files : List (List Bytes))
        → ((first_event files ≡ none) × HasNoEvent files)
          ⊎ ((e : Instant × Bytes) × (first_event files ≡ some e) × IsFound files e)
    unfolding first_event
    first_event-outcome [] = inl (refl, tt)
    first_event-outcome (f ∷ fs') = elim (Option-cases (latest_in fs clock node f none)) [
      | inr (e, p) ↦ inr (
        e,
        rw (p, first_event) refl,
        record {
          before = [];
          lines = f;
          behind = fs';
          parts = refl;
          barren = tt;
          latest = subst (IsLatest (events fs clock node f)) p (latest_in-IsLatest fs clock node f);
        },
      )
      | inl p ↦ elim (first_event-outcome fs') [
        | inl (q, h) ↦ inl (rw (p, first_event) q, (latest-none f p, h))
        | inr (e, q, found) ↦ inr (
          e,
          rw (p, first_event) q,
          record {
            before = f ∷ found.before;
            lines = found.lines;
            behind = found.behind;
            parts = ap (λ l. f ∷ l) found.parts;
            barren = (latest-none f p, found.barren);
            latest = found.latest;
          },
        )
      ]
    ]

module _ (fs : FileSystem) (clock : Clock) (min_delay : ℤ) (now : Instant) (tracelog_dir : Bytes)
    (lookback_days : ℤ) (sn : StreamNode) where
  -- The files that are searched: none where no directory or no day is given.
  abbrev pub searched : List (List Bytes)
  searched =
      if is_empty tracelog_dir || leb_ℤ lookback_days (pos 0)
      then []
      else traces fs clock tracelog_dir sn.stream (pos_part lookback_days) 0

  -- Either no trace file of the days that are looked back on that can be read has an event of the
  -- node, and the activity is a failure; or the reported time and file are those of the latest event
  -- of the node in the first file, in the order of the search, that has one, with the delay since.
  -- The order is the days from today back, and in each day the file names from the last to the first.
  pub scan_distributor_activity-outcome :
      let act = scan_distributor_activity fs clock min_delay now tracelog_dir lookback_days sn in
      (HasNoEvent fs clock tracelog_dir sn.stream sn.node searched
        × (act ≡ no_activity sn (codes "distributor") (codes "-")))
      ⊎ ((e : Instant × Bytes) × IsFound fs clock tracelog_dir sn.stream sn.node searched e
          × (act
              ≡ activity_at sn
                  (codes "distributor")
                  e.1
                  (unix e.0)
                  (delay_since min_delay (unix now) (unix e.0))))
  unfolding scan_distributor_activity
  scan_distributor_activity-outcome =
      elim (Bool-cases (is_empty tracelog_dir || leb_ℤ lookback_days (pos 0))) [
        | inl off ↦ rw off (inl (tt, refl))
        | inr on ↦
            let days = pos_part lookback_days in
            let same = search_days-first fs clock tracelog_dir sn.stream sn.node days 0 in
            elim (first_event-outcome fs clock tracelog_dir sn.stream sn.node
              (traces fs clock tracelog_dir sn.stream days 0)) [
                | inl (p, barren) ↦
                    rw (on, scan_distributor_activity, same ∙ p) (inl (barren, refl))
                | inr (e, p, found) ↦
                    rw (on, scan_distributor_activity, same ∙ p) (inr (e, found, refl))
              ]
      ]
