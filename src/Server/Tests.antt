-- ===== src/Server/Tests.antt =====
-- Requests with and without the secret.
use directory_exporter.Scanner.{
  scan_dir, scan_result, scan_reads, scan_round, counted, tally, note_time,
}
use directory_exporter.Common.{
  List, false, pos, [], Bytes, codes, ◌≡◌, ◌≢◌, ◌⊎◌, refl, ◌∷◌, true, some, none, member, All,
}
use directory_exporter.Go.Strings.{trim_prefix}
use directory_exporter.Config.{Config, defaults}
use directory_exporter.Exporter.{
  Exporter, new_exporter, trigger_reload, Cycle, background, scan_all, scan_entry, metrics_of,
}
use directory_exporter.Metrics.Text.{decimal}
use directory_exporter.Metrics.Render.{Format, ready_family}
use directory_exporter.Server.{Request, serve}
use directory_exporter.Go.Os.{FileSystem, ok, err, regular}
use directory_exporter.Exporter.Loops.{
  Running, first_scan, discovery_start, request, happen, run, launch,
}
use directory_exporter.Server.Lifecycle.{get_request, serve-scanned}
use mathlib.Core.List.{Memᴰ}
use directory_exporter.Types.{WatchEntry}
use directory_exporter.Metrics.Read.{Sample, read_text}
use directory_exporter.Metrics.Scrape.Families.{IsPlain, decimal-one_line}
use directory_exporter.Server.Scrape.{count_sample, serve-scrape}
use directory_exporter.Server.Fresh.{serve-scrape_fresh}
use directory_exporter.Server.Auth.{IsAccepted, serve-IsAccepted}

abbrev fmt : Format
fmt = record { whole = decimal; duration = λ n. decimal (pos n) }

cfg : Config
cfg = record defaults { reload_secret = codes "s3cret" }

reload_with : Bytes → Request
reload_with authorization = record {
  method = codes "POST";
  path = codes "/-/reload";
  authorization = authorization;
}

accepted : (serve cfg fmt (reload_with (codes "Bearer s3cret")) new_exporter).0.status ≡ 202
unfolding serve cfg reload_with trim_prefix
accepted = refl

rejected : (serve cfg fmt (reload_with (codes "Bearer guess")) new_exporter).0.status ≡ 401
unfolding serve cfg reload_with trim_prefix
rejected = refl

wrong_method :
    (serve cfg fmt
      (record { method = codes "GET"; path = codes "/-/reload"; authorization = [] })
      new_exporter).0.status
    ≡ 405
unfolding serve
wrong_method = refl

-- The secret alone.
abbrev bare : Request
bare = record { method = codes "POST"; path = codes "/-/reload"; authorization = codes "s3cret" }

serve-IsAccepted_example :
    (IsAccepted cfg.reload_secret bare
      × ((serve cfg fmt bare new_exporter).0.status ≡ 202)
      × ((serve cfg fmt bare new_exporter).1 ≡ trigger_reload new_exporter))
    ⊎ ((¬ (IsAccepted cfg.reload_secret bare))
        × ((serve cfg fmt bare new_exporter).0.status ≢ 202)
        × ((serve cfg fmt bare new_exporter).1 ≡ new_exporter)
        × ((bare.path ≢ codes "/-/reload")
            ⊎ (bare.method ≢ codes "POST")
            ⊎ ((serve cfg fmt bare new_exporter).0.status ≡ 401)))
serve-IsAccepted_example = serve-IsAccepted cfg fmt bare new_exporter

-- A file system without files, and a cycle over it.
abbrev fs : FileSystem
fs = record {
  stat = λ p. err (codes "no such file");
  open_dir = λ p. err (codes "no such file");
  read_dir = λ p. err (codes "no such file");
  read_file = λ p. err (codes "no such file");
  eval_symlinks = λ p. err (codes "no such file");
}

abbrev cycle : Cycle
cycle = record {
  fs = fs;
  clock = record { parse_in_location = λ l s. none; day_stamp = λ d. []; glob = λ p. ok [] };
  now = pos 1700000000000;
  end_time = pos 1701000000000;
  elapsed = λ p. 9;
  launch_done = background;
  scan_done = λ p. background;
  activity_done = background;
  buffer_done = background;
  count_done = λ d p. background;
}

run_to_scan :
    (t : Running) × (run cfg (discovery_start ∷ first_scan cycle ∷ request ∷ []) (launch cfg fs)
      ≡ some t)
unfolding run happen launch
run_to_scan = (_, refl)

serve-scanned_example :
    ((serve cfg fmt (get_request (codes "/-/ready") []) run_to_scan.0.exporter).0.status ≡ 200)
    × (true ≡ false
        → (serve cfg fmt (get_request (codes "/metrics") []) run_to_scan.0.exporter).0.body
          ≡ ready_family fmt false)
serve-scanned_example =
    serve-scanned cfg fmt fs (discovery_start ∷ first_scan cycle ∷ request ∷ []) run_to_scan.0 []
      run_to_scan.1

fmt-IsPlain : IsPlain fmt
fmt-IsPlain = record { whole = decimal-one_line; duration = λ n. decimal-one_line (pos n) }

-- A directory of two files, which is the watch list.
abbrev two_files : FileSystem
two_files = record fs {
  open_dir = λ p. ok (
      record {
        entries =
            record { name = codes "f"; entry_type = regular; info = some (pos 5) }
            ∷ record { name = codes "g"; entry_type = regular; info = none }
            ∷ [];
        failed = false;
      }
      ∷ []);
}

abbrev queue : WatchEntry
queue = record {
  abs_path = codes "/s/queue";
  labels = record { base = codes "/s"; stream = codes "queue"; kind = [] };
}

abbrev watching : Exporter
watching = record new_exporter { watch_list = queue ∷ [] }

serve-scrape_example :
    (xs : List Sample) × (read_text
        (serve cfg fmt
          (get_request (codes "/metrics") [])
          (scan_all cfg (record cycle { fs = two_files }) watching)).0.body
      ≡ some xs)
    × Memᴰ
        (count_sample
          (metrics_of (scan_entry cfg (record cycle { fs = two_files }) queue) queue.labels))
        xs
unfolding member
serve-scrape_example =
    serve-scrape cfg fmt (record cycle { fs = two_files }) watching queue [] fmt-IsPlain (λ k. refl)
      (refl, tt) (Memᴰ.head refl)

serve-scrape_fresh_example :
    (xs : List Sample) × (read_text
        (serve cfg fmt
          (get_request (codes "/metrics") [])
          (scan_all cfg (record cycle { fs = two_files }) watching)).0.body
      ≡ some xs)
    × All
        (λ x.
          x.name ≡ codes "directory_file_count"
          → (w : WatchEntry) × Memᴰ w (queue ∷ [])
            × (x
                ≡ count_sample
                    (metrics_of (scan_entry cfg (record cycle { fs = two_files }) w) w.labels)))
        xs
serve-scrape_fresh_example =
    serve-scrape_fresh cfg fmt (record cycle { fs = two_files }) watching [] fmt-IsPlain

-- What the sample is.
counted_sample :
    count_sample (metrics_of (scan_entry cfg (record cycle { fs = two_files }) queue) queue.labels)
    ≡ record {
      name = codes "directory_file_count";
      labels =
          (codes "base", codes "/s") ∷ (codes "stream", codes "queue") ∷ (codes "type", []) ∷ [];
      value = codes "2";
    }
unfolding scan_entry decimal scan_dir scan_result scan_reads scan_round counted tally cfg defaults
    note_time
counted_sample = refl
