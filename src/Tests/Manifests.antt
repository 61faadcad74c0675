-- ===== src/Tests/Manifests.antt =====
-- Tests of crates/kunkka-core/src/app_manifest.rs and crates/kunkka-worker-sdk/src/codec.rs.
use kunkka.Base.{◌≡◌, refl, ◌↔◌, true, none, some, [], ◌∷◌, All}
use kunkka.Base.Map
use kunkka.Base.Map.{Map}
use kunkka.Base.Text.Trim.{trim}
use kunkka.Base.Fallible.{ok}
use kunkka.Manifest.{AppManifest, RawAppManifest, from_raw}
use kunkka.Manifest.Validate.{validate}
use kunkka.Manifest.WellFormed.{IsWellFormed, validate-eq-ok_iff}
use kunkka.Manifest.Loading.{ManifestSource, load_file, load_paths}
use kunkka.Manifest.Loaded.{IsSound, Holds, load_paths_complete}
use kunkka.Tests.Samples.{notes}

validate-eq-ok_iff_example : (validate notes "notes.json" ≡ ok tt) ↔ IsWellFormed notes
validate-eq-ok_iff_example = validate-eq-ok_iff notes "notes.json"

abbrev raw : RawAppManifest
raw = record {
  app_id = "notes";
  worker = record { program = some "notes-worker"; args = some []; env = []; cwd = none };
  permissions = none;
  capabilities = none;
  idle_timeout_ms = 300_000;
  startup_timeout_ms = 10_000;
}

abbrev folder : ManifestSource
folder = record {
  exists = true;
  read_dir = ok (ok (record { path = "notes.json"; is_file = ok true }) ∷ []);
  read = λ path. ok "{…}";
  parse = λ bytes. ok raw;
}

abbrev loaded : Map AppManifest
loaded =
    (
      "notes",
      record {
        app_id = "notes";
        worker = record { program = "notes-worker"; args = []; env = []; cwd = none };
        permissions = record { frontend_dispatch = record { allowed_methods = [] } };
        capabilities = record { fs = none; shell = none; http = none; llm = none };
        idle_timeout_ms = 300_000;
        startup_timeout_ms = 10_000;
      },
    )
    ∷ []

folder_loads : load_paths folder ("notes.json" ∷ []) Map.empty ≡ ok loaded
unfolding load_paths load_file from_raw validate Map.get Map.insert trim
folder_loads = refl

load_paths_complete_example :
    IsSound loaded × All (Holds folder loaded) ("notes.json" ∷ []) × (Map.size loaded ≡ 1)
load_paths_complete_example = load_paths_complete folder ("notes.json" ∷ []) loaded folder_loads
