-- ===== src/Metrics/Tests.antt =====
-- A warm snapshot of two directories, a collector and its buffer.
use directory_exporter.Go.Strings.{split, replace_byte}
use directory_exporter.Metrics.Read.{read_lines, read_sample, span_name, read_labels, read_text}
use directory_exporter.Common.{
  pos, negsuc, true, false, List, [], ◌∷◌, ◌++◌, Bytes, codes, some, ◌≡◌, refl, map, Distinct, same,
  swap, member,
}
use directory_exporter.Types.{DirMetrics}
use directory_exporter.Cache.{CacheSnapshot}
use directory_exporter.Metrics.Text.{decimal, lv}
use directory_exporter.Metrics.Escape.{read_label}
use directory_exporter.Metrics.Render.{Format, dir_key, render_metrics, labelled, plain}
use directory_exporter.Metrics.Samples.{samples}
use directory_exporter.Metrics.Scrape.{read_text-render_metrics}
use directory_exporter.Metrics.Scrape.Families.{IsPlain, decimal-one_line}
use directory_exporter.Metrics.Stable.{SameContent, render_metrics-stable}

abbrev fmt : Format
fmt = record { whole = decimal; duration = λ n. decimal (pos n) }

abbrev sample : Bytes → DirMetrics
sample name = record {
  file_count = 12;
  oldest_timestamp_sec = pos 1700;
  newest_timestamp_sec = pos 1800;
  scan_duration = 3;
  scan_success = 1;
  truncated = false;
  labels = record { base = codes "prod"; stream = name; kind = [] };
}

abbrev snap_of : List DirMetrics → CacheSnapshot
snap_of entries = record {
  entries = entries;
  node_activities = [];
  node_buffers = [];
  last_scan_time = pos 1900;
  ready = true;
  scan_errors = 2;
  reload_total = 1;
  watched_total = pos 2;
}

abbrev two : List DirMetrics
two = sample (codes "b") ∷ sample (codes "a") ∷ []

abbrev other_two : List DirMetrics
other_two = sample (codes "a") ∷ sample (codes "b") ∷ []

decimal_samples :
    (decimal (pos 0) ≡ codes "0")
    × (decimal (pos 1705) ≡ codes "1705")
    × (decimal (negsuc 11) ≡ codes "-12")
unfolding decimal
decimal_samples = (refl, refl, refl)

escaped : lv (92 ∷ b'n' ∷ 10 ∷ 34 ∷ []) ≡ codes "\"\\\\n\\n\\\"\""
unfolding lv replace_byte
escaped = refl

two_dirs : Distinct (map dir_key two)
unfolding member
two_dirs = (refl, (refl, tt))

same_two : SameContent (snap_of two) (snap_of other_two)
same_two = record {
  entries = swap _ _;
  activities = same;
  buffers = same;
  last_scan_time = refl;
  ready = refl;
  scan_errors = refl;
  reload_total = refl;
  watched_total = refl;
}

render_metrics-stable_example :
    render_metrics fmt (snap_of two) ≡ render_metrics fmt (snap_of other_two)
render_metrics-stable_example =
    render_metrics-stable fmt (snap_of two) (snap_of other_two) same_two two_dirs tt tt

fmt-IsPlain : IsPlain fmt
fmt-IsPlain = record { whole = decimal-one_line; duration = λ n. decimal-one_line (pos n) }

read_text-render_metrics_example :
    read_text (render_metrics fmt (snap_of two)) ≡ some (samples fmt (snap_of two))
read_text-render_metrics_example = read_text-render_metrics fmt fmt-IsPlain (snap_of two)

-- A label that tries to pass for a sample of its own.
abbrev forged : Bytes
forged = 34 ∷ (codes "} 1" ++ (10 ∷ codes "directory_cache_ready 0"))

two_lines :
    read_text (
      labelled (codes "m") (codes "stream=" ++ lv forged) (codes "7")
      ++ plain (codes "n") (codes "8"))
    ≡ some (
        record { name = codes "m"; labels = (codes "stream", forged) ∷ []; value = codes "7" }
        ∷ record { name = codes "n"; labels = []; value = codes "8" }
        ∷ [])
unfolding read_text read_lines split labelled lv replace_byte read_sample span_name read_labels
    read_label plain
two_lines = refl
