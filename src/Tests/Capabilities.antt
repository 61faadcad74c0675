-- ===== src/Tests/Capabilities.antt =====
-- Tests of the fs and http capabilities, of the permission on paths and of the theme's schedule.
use kunkka.Base.{◌≤◌, ◌<◌, ◌≡◌, ◌≢◌, ◌↔◌, refl, String, none, some, [], ◌∷◌, arith}
use kunkka.Base.Text.Split.{split_on, parse_u32}
use kunkka.Base.Fallible.{ok}
use kunkka.Ipc.{Postcard}
use kunkka.Manifest.{AppManifest, FsCapabilityConfig, HttpCapabilityConfig}
use kunkka.Permissions.Paths.{
  check_fs_permission, normalize_path, starts_with_whole, trim_end_slashes, ends_with_slash,
}
use kunkka.Files.{FileHost, read_file, handle_fs_request, decode_params, guarded}
use kunkka.Http.{HttpHost, HttpRequestParams}
use kunkka.Protocol.{latte, macchiato}
use kunkka.Theme.{ThemeConfig, ThemeSchedule}
use kunkka.Theme.Schedule.{check_schedule_at, parse_hhmm}
use kunkka.Theme.Clock.{check_schedule_at-forward_iff}
use kunkka.Tests.Samples.{notes}

abbrev notes_files : FsCapabilityConfig
notes_files = record { paths = "/home/notes/" ∷ "/etc/hosts" ∷ [] }

abbrev notes_domains : HttpCapabilityConfig
notes_domains = record { domains = "example.org" ∷ [] }

abbrev reader : AppManifest
reader = record notes {
  capabilities = record {
    fs = some notes_files;
    shell = none;
    http = some notes_domains;
    llm = none;
  };
}

abbrev codec : {A : Type 0} → A → Postcard A
codec value = record { to_stdvec = λ v. ok (1 ∷ []); from_bytes = λ bytes. ok value }

abbrev files : FileHost
files = record {
  read_params = codec (record { path = "/home/notes/todo" });
  write_params = codec (record { path = "/home/notes/todo"; content = "" });
  list_params = codec (record { path = "/home/notes" });
  read_result = codec (record { content = "" });
  write_result = codec (record { bytes_written = 0 });
  list_result = codec (record { entries = [] });
  read_to_string = λ accesses path. ok "buy milk";
  write = λ accesses path content. ok tt;
  read_dir = λ accesses path. ok [];
}

todo_read :
    handle_fs_request files reader "read_file" [] []
    ≡ (ok (1 ∷ []), read_file "/home/notes/todo" ∷ [])
unfolding handle_fs_request decode_params guarded check_fs_permission ends_with_slash
    starts_with_whole trim_end_slashes normalize_path
todo_read = refl

abbrev page : HttpRequestParams
page = record { method = "GET"; url = "http://Example.org"; headers = []; body = none }

abbrev web : HttpHost
web = record {
  Url = String;
  parse = λ text. ok text;
  scheme = λ url. "http";
  host_str = λ url. some "Example.org";
  to_uppercase = λ text. text;
  debug_methods = "";
  params = codec page;
  response = codec (record { status_code = 200; headers = []; body = [] });
  build = ok tt;
  method_from_bytes = λ method. ok tt;
  send = λ policy method url headers body.
      (ok (record { status = 200; headers = []; bytes = ok [] }), url ∷ []);
}

abbrev night : ThemeConfig
night = record {
  active_flavor = macchiato;
  schedule = some (record { light_at = "07:00"; dark_at = "19:30" });
  hooks = [];
}

abbrev day_hours : ThemeSchedule
day_hours = record { light_at = "07:00"; dark_at = "19:30" }

eight : parse_hhmm "08:15" ≡ some (8, 15)
unfolding parse_hhmm split_on parse_u32
eight = refl

seven : parse_hhmm "07:00" ≡ some (7, 0)
unfolding parse_hhmm split_on parse_u32
seven = refl

half_past_seven : parse_hhmm "19:30" ≡ some (19, 30)
unfolding parse_hhmm split_on parse_u32
half_past_seven = refl

check_schedule_at-forward_iff_example :
    ((check_schedule_at "08:15" night ≡ some latte) ↔ ((75 < 750) × (macchiato ≢ latte)))
    × ((check_schedule_at "08:15" night ≡ some macchiato) ↔ ((750 ≤ 75) × (macchiato ≢ macchiato)))
check_schedule_at-forward_iff_example =
    check_schedule_at-forward_iff night day_hours "08:15" (8, 15) (7, 0) (19, 30) refl eight seven
      half_past_seven (omega arith)
