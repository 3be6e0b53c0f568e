-- ===== src/Activity/Outcome.antt =====
-- When `ScanCollectorActivity` reports a success, and what it then reports.
use directory_exporter.Common.{
  ℤ, pos, leb_ℤ, ltb_ℤ, true, false, List, [], ◌∷◌, Option, none, some, Bytes, Error, ◌≡◌, ◌≢◌, ◌⊎◌,
  inl, inr, arith, refl, Option-cases, Bool-cases,
}
use directory_exporter.Types.{StreamNode, NodeActivity}
use directory_exporter.Go.Os.{FileSystem, Result-cases, ok}
use directory_exporter.Go.Strings.{fields}
use directory_exporter.Go.Strconv.{parse_int}
use directory_exporter.Activity.Nodes.{audit_path}
use directory_exporter.Activity.Delay.{Instant, unix, delay_since}
use directory_exporter.Activity.Collector.{collector_fields, scan_collector_activity}

module _ (fs : FileSystem) (min_delay : ℤ) (now : Instant) where
  -- The file audit_info of the node reads, and its first two words are the file that is reported and
  -- a positive `int64`, which is reported with the delay since.
  pub record IsCollected (sn : StreamNode) (act : NodeActivity) : Type 0 where
    pub text : Bytes
    pub stamp : Bytes
    pub others : List Bytes
    pub reads : fs.read_file (audit_path sn.node_dir) ≡ ok text
    pub words : fields text ≡ act.last_file ∷ stamp ∷ others
    pub parses : parse_int stamp ≡ some act.last_activity_timestamp
    pub positive : ltb_ℤ (pos 0) act.last_activity_timestamp ≡ true
    pub delay : act.delay_sec ≡ delay_since min_delay (unix now) act.last_activity_timestamp
    pub success : act.success ≡ true

  abbrev pub IsFailure : NodeActivity × Option Error → Type 0
  IsFailure r = (r.0.success ≡ false) × (r.0.last_activity_timestamp ≡ pos 0) × (r.1 ≢ none)

  fields-outcome :
      (sn : StreamNode) (text : Bytes) (words : List Bytes)
      → fs.read_file (audit_path sn.node_dir) ≡ ok text
      → fields text ≡ words
      → let r = collector_fields fs min_delay now sn words in
        ((r.1 ≡ none) × IsCollected sn r.0) ⊎ IsFailure r
  unfolding collector_fields
  fields-outcome sn text [] reads p = inr (refl, refl, λ e. cc)
  fields-outcome sn text (w ∷ []) reads p = inr (refl, refl, λ e. cc)
  fields-outcome sn text (w ∷ v ∷ words) reads p = elim (Option-cases (parse_int v)) [
    | inl q ↦ rw (q, collector_fields) (inr (refl, refl, λ e. cc))
    | inr (epoch, q) ↦ elim (Bool-cases (leb_ℤ epoch (pos 0))) [
      | inl low ↦ rw (q, collector_fields, low) (inr (refl, refl, λ e. cc))
      | inr high ↦
          rw (q, collector_fields, high)
            (inl (
              refl,
              record {
                text = text;
                stamp = v;
                others = words;
                reads = reads;
                words = p;
                parses = q;
                positive = ground arith;
                delay = refl;
                success = refl;
              },
            ))
    ]
  ]

  -- Either there is no error, the file audit_info reads, and its first two words are the file name
  -- and the positive time that are reported as a success with the delay since that time; or there is
  -- an error, and the activity is no success and has no time.
  pub scan_collector_activity-outcome :
      (sn : StreamNode)
      → let r = scan_collector_activity fs min_delay now sn in
        ((r.1 ≡ none) × IsCollected sn r.0) ⊎ IsFailure r
  unfolding scan_collector_activity
  scan_collector_activity-outcome sn = elim (Result-cases (fs.read_file (audit_path sn.node_dir))) [
    | inl (e, p) ↦ rw (p, scan_collector_activity) (inr (refl, refl, λ e. cc))
    | inr (text, p) ↦ rw (p, scan_collector_activity) (fields-outcome sn text _ p refl)
  ]
