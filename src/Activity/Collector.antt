-- ===== src/Activity/Collector.antt =====
-- activity.go: `ScanCollectorActivity`.
use directory_exporter.Common.{
  ℕ, length, ℤ, pos, leb_ℤ, true, false, List, ◌∷◌, ◌++◌, codes, Option, none, some, Bytes, Error,
  if◌then◌else◌,
}
use directory_exporter.Types.{NodeActivity, StreamNode}
use directory_exporter.Go.Os.{ok, err, FileSystem}
use directory_exporter.Go.Strings.{fields}
use directory_exporter.Go.Strconv.{parse_int, quote_text}
use directory_exporter.Metrics.Text.{decimal}
use directory_exporter.Activity.Nodes.{audit_path}
use directory_exporter.Activity.Delay.{Instant, unix, delay_since}

-- The activity of a node that no success is reported for.
abbrev pub no_activity : StreamNode → Bytes → Bytes → NodeActivity
no_activity sn kind last_file = record {
  base = sn.base;
  stream = sn.stream;
  node = sn.node;
  node_type = kind;
  last_activity_timestamp = pos 0;
  delay_sec = pos 0;
  last_file = last_file;
  success = false;
}

abbrev pub activity_at : StreamNode → Bytes → Bytes → ℤ → ℤ → NodeActivity
activity_at sn kind last_file epoch delay = record {
  base = sn.base;
  stream = sn.stream;
  node = sn.node;
  node_type = kind;
  last_activity_timestamp = epoch;
  delay_sec = delay;
  last_file = last_file;
  success = true;
}

abbrev pub bad_epoch : Bytes → Error
bad_epoch text = codes "invalid epoch timestamp in audit_info: " ++ quote_text text

abbrev pub too_few_fields : ℕ → Error
too_few_fields n = codes "malformed audit_info: expected at least 2 fields, got " ++ decimal (pos n)

module _ (fs : FileSystem) (min_delay : ℤ) (now : Instant) where
  -- From the fields of the file on.
  unfoldable pub collector_fields : StreamNode → List Bytes → NodeActivity × Option Error
  unfolding delay_since
  collector_fields sn (file ∷ text ∷ _) = elim (parse_int text) [
    | none ↦ (no_activity sn (codes "collector") file, some (bad_epoch text))
    | some epoch ↦
        if leb_ℤ epoch (pos 0)
        then (no_activity sn (codes "collector") file, some (bad_epoch text))
        else (
          activity_at sn (codes "collector") file epoch (delay_since min_delay (unix now) epoch),
          none,
        )
  ]
  collector_fields sn words =
      (no_activity sn (codes "collector") (codes "-"), some (too_few_fields (length words)))

  unfoldable pub scan_collector_activity : StreamNode → NodeActivity × Option Error
  unfolding collector_fields
  scan_collector_activity sn = elim (fs.read_file (audit_path sn.node_dir)) [
    | err e ↦ (no_activity sn (codes "collector") (codes "-"), some e)
    | ok text ↦ collector_fields sn (fields text)
  ]
