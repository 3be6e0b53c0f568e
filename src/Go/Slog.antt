-- ===== src/Go/Slog.antt =====
-- What the program hands to `log/slog`: the level, the message, and the values as they are printed.
use directory_exporter.Common.{List, Bytes}

pub data Level : Type 0 where
  info warn error : Level

pub record LogLine : Type 0 where
  pub level : Level
  pub message : Bytes
  pub values : List (Bytes × Bytes)
