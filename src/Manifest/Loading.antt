-- ===== src/Manifest/Loading.antt =====
-- `AppManifest::load_file` and `AppRegistry` of crates/kunkka-core/src/app_manifest.rs. The file system
-- and the JSON parser are the parameter `ManifestSource`. A path is the name of a file in the `apps`
-- folder; such paths are ordered as their names are.
use kunkka.Base.{
  String, ◌<>◌, Bool, false, not, ◌||◌, Option, none, some, List, [], ◌∷◌, ◌==◌, if◌then◌else◌,
}
use Prim.Native.String.{compare, [] as nil, ◌∷◌ as cons}
use text.Mathlib.Text.{is_lt}
use kunkka.Base.Map
use kunkka.Base.Map.{Map}
use kunkka.Base.Fallible.{Result, ok, err, ◌>>=◌, ◌>>◌, fail_if, map_err}
use kunkka.Sdk.{AppId}
use kunkka.CoreError.{CoreError, io, manifest_invalid}
use kunkka.Manifest.{AppManifest, RawAppManifest, from_raw}
use kunkka.Manifest.Validate.{validate}

pub record AppRegistry : Type 0 where
  pub manifests : Map AppManifest

-- An entry of the folder: its name, and what `file_type()` says, whether it is a plain file.
pub record FolderEntry : Type 0 where
  pub path : String
  pub is_file : Result String Bool

pub record ManifestSource : Type 0 where
  -- `apps_dir.exists()`
  pub exists : Bool
  -- `fs::read_dir` and the items of its iterator
  pub read_dir : Result String (List (Result String FolderEntry))
  -- `fs::read` followed by `serde_json::from_slice`
  pub read : String → Result String String
  pub parse : String → Result String RawAppManifest

-- `path.extension() == Some("json")`: the name ends in `.json` and more stands before it.
has_json_suffix : String → Bool
has_json_suffix nil = false
has_json_suffix (cons c s) = s == ".json" || has_json_suffix s

-- `Vec::sort`, as an insertion sort: paths are distinct, so any sort gives this list.
insert_path : String → List String → List String
insert_path p [] = p ∷ []
insert_path p (q ∷ qs) = if is_lt (compare q p) then q ∷ insert_path p qs else p ∷ q ∷ qs

pub sort_paths : List String → List String
unfolding insert_path
sort_paths [] = []
sort_paths (p ∷ ps) = insert_path p (sort_paths ps)

-- The loop over the folder's entries.
collect_paths : List (Result String FolderEntry) → Result CoreError (List String)
collect_paths [] = ok []
collect_paths (e ∷ es) = do
  entry ← map_err io e
  let rest = collect_paths es
  if not (has_json_suffix entry.path) then rest else do
    plain ← map_err io entry.is_file
    fail_if (not plain) (manifest_invalid (entry.path <> ": not a file"))
    paths ← rest
    ok (entry.path ∷ paths)

-- The match on `manifests.entry(…)`.
unfoldable pub insert_new :
    Option AppManifest → AppManifest → String → Map AppManifest → Result CoreError (Map AppManifest)
insert_new none manifest path manifests = ok (Map.insert manifest.app_id manifest manifests)
insert_new (some _) manifest path manifests =
    err (manifest_invalid ("duplicate app_id " <> manifest.app_id <> " in " <> path))

module _ (source : ManifestSource) where
  unfoldable pub load_file : String → Result CoreError AppManifest
  load_file path = do
    bytes ← map_err io (source.read path)
    raw ← map_err (λ e. manifest_invalid (path <> ": " <> e)) (source.parse bytes)
    manifest ← from_raw raw path
    validate manifest path
    ok manifest

  unfoldable pub load_paths : List String → Map AppManifest → Result CoreError (Map AppManifest)
  unfolding insert_new
  load_paths [] manifests = ok manifests
  load_paths (path ∷ paths) manifests = do
    manifest ← load_file path
    next ← insert_new (Map.get manifest.app_id manifests) manifest path manifests
    load_paths paths next

  unfoldable pub load : Result CoreError AppRegistry
  unfolding load_paths collect_paths sort_paths has_json_suffix
  load = if not source.exists then ok (record { manifests = Map.empty }) else do
    entries ← map_err io source.read_dir
    paths ← collect_paths entries
    manifests ← load_paths (sort_paths paths) Map.empty
    ok (record { manifests = manifests })

abbrev pub get : AppRegistry → AppId → Option AppManifest
get registry app_id = Map.get app_id registry.manifests
