-- ===== src/Types.antt =====
-- The records that several components share: `Target` of config.go, `DirLabels` and `DirMetrics` of
-- cache.go, `WatchEntry` of watchlist.go, `StreamNode` and `NodeActivity` of activity.go,
-- `NodeBuffer` of buffer.go. A `float64` that the source converts from an integer is that integer.
use directory_exporter.Common.{ℕ, ℤ, Bool, List, Bytes}

pub record Target : Type 0 where
  pub base : Bytes
  pub label : Bytes
  pub dirs : List Bytes
  pub max_depth : ℤ
  pub pattern : Bytes
  pub include : List Bytes

-- The field `Type` is `kind` here.
pub record DirLabels : Type 0 where
  pub base : Bytes
  pub stream : Bytes
  pub kind : Bytes

pub record WatchEntry : Type 0 where
  pub abs_path : Bytes
  pub labels : DirLabels

-- The duration is in nanoseconds; `scan_success` is 1 or 0.
pub record DirMetrics : Type 0 where
  pub file_count : ℕ
  pub oldest_timestamp_sec : ℤ
  pub newest_timestamp_sec : ℤ
  pub scan_duration : ℕ
  pub scan_success : ℕ
  pub truncated : Bool
  pub labels : DirLabels

pub record NodeActivity : Type 0 where
  pub base : Bytes
  pub stream : Bytes
  pub node : Bytes
  pub node_type : Bytes
  pub last_activity_timestamp : ℤ
  pub delay_sec : ℤ
  pub last_file : Bytes
  pub success : Bool

pub record StreamNode : Type 0 where
  pub base : Bytes
  pub stream : Bytes
  pub node : Bytes
  pub node_dir : Bytes
  pub node_type : Bytes

pub record NodeBuffer : Type 0 where
  pub base : Bytes
  pub stream : Bytes
  pub node : Bytes
  pub node_type : Bytes
  pub buffer_path : Bytes
  pub file_count : ℕ
  pub success : Bool
