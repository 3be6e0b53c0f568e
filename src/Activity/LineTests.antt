-- ===== src/Activity/LineTests.antt =====
-- A line of a trace file.
use directory_exporter.Common.{
  false, [], codes, some, none, Bytes, if◌then◌else◌, ◌≡◌, refl, eqb, pos, arith,
}
use directory_exporter.Go.Os.{FileSystem, ok, err}
use directory_exporter.Go.FilePath.{base_name}
use directory_exporter.Go.Strings.{from_index, has_prefix, after_prefix}
use directory_exporter.Activity.Distributor.{Clock, parse_distributor_line}
use directory_exporter.Activity.TraceLine.{TraceLine, line_text, IsWritten}
use directory_exporter.Activity.TraceLine.Reading.{parse_distributor_line-line_text}

abbrev fs : FileSystem
fs = record {
  stat = λ p. err (codes "gone");
  open_dir = λ p. err (codes "gone");
  read_dir = λ p. err (codes "gone");
  read_file = λ p. err (codes "gone");
  eval_symlinks = λ p. ok p;
}

abbrev clock : Clock
clock = record {
  parse_in_location =
      λ l s. if eqb s (codes "20260902 10:30:00") then some (pos 1788345000000000000) else none;
  day_stamp = λ d. [];
  glob = λ p. ok [];
}

abbrev line : TraceLine
line = record {
  date = codes "20260902";
  hour_tens = b'1';
  hour = b'0';
  minute_tens = b'3';
  minute = b'0';
  second_tens = b'0';
  second = b'0';
  subseconds = codes ".250";
  dotted = false;
  level = codes ".info: ";
  colon = false;
  file = codes "OUT_001.dat";
  behind = codes " to billing";
}

abbrev dist : Bytes
dist = codes "dist_01"

line-text :
    line_text dist line
    ≡ codes "20260902 103000.250 [dist_01].info: Distributed file OUT_001.dat to billing"
line-text = refl

line-IsWritten : IsWritten dist line
unfolding from_index has_prefix after_prefix
line-IsWritten = record {
  date = (refl, ground arith);
  digits = ground arith;
  fraction = refl;
  fraction_solid = ground arith;
  file = (refl, ground arith);
  file_start = refl;
  behind = refl;
  front = refl;
}

parse_distributor_line-line_text_example :
    parse_distributor_line fs clock (line_text dist line) dist
    ≡ some (pos 1788345000000000000, base_name (codes "OUT_001.dat"))
parse_distributor_line-line_text_example =
    parse_distributor_line-line_text fs clock dist line (pos 1788345000000000000) line-IsWritten
      refl
