-- ===== src/Permissions/Paths.antt =====
-- `check_fs_permission` and `normalize_path` of crates/kunkka-core/src/capability/permissions.rs, with
-- `Path::components` of Rust's standard library on a Unix path.
pub mod Segments
pub mod Trimmed
pub mod Resolve
pub mod Within
use Prim.Native.Char.{code}
use Prim.Native.String.{[] as nil, ◌∷◌ as cons}
use kunkka.Base.{
  ℕ, String, ◌≡◌, refl, ◌<>◌, ◌==◌, Bool, true, false, not, ◌&&◌, ◌||◌, Option, none, some, List,
  [], ◌∷◌, ◌++◌, ltb, length, nat_eq, is_empty, if◌then◌else◌,
}
use kunkka.Base.Text.Trim.{is_empty_text, starts_with_char, debug}
use kunkka.Base.Text.Split.{split_on}
use kunkka.Base.Fallible.{Result, ok, err}
use kunkka.Sdk.Debug.{debug_app_id}
use kunkka.Manifest.{AppManifest, FsCapabilityConfig}
use kunkka.Shell.Pipeline.{CapabilityError}

pub data Component : Type 0 where
  root_dir cur_dir parent_dir : Component
  normal : String → Component

-- Empty parts and `.` are passed over, but for a `.` at the start of a relative path.
unfoldable pub inner_components : List String → List Component
inner_components [] = []
inner_components (part ∷ parts) =
    let rest = inner_components parts in
    if is_empty_text part || part == "."
    then rest
    else if part == ".."
    then parent_dir ∷ rest
    else normal part ∷ rest

unfoldable pub leading_components : List String → List Component
unfolding inner_components
leading_components [] = []
leading_components (part ∷ parts) =
    if part == "." then cur_dir ∷ inner_components parts else inner_components (part ∷ parts)

abbrev pub is_absolute : String → Bool
is_absolute path = starts_with_char b'/' path

unfoldable pub path_components : String → List Component
unfolding leading_components inner_components split_on starts_with_char
path_components path =
    if is_absolute path
    then root_dir ∷ inner_components (split_on b'/' path)
    else leading_components (split_on b'/' path)

-- `Vec::pop`
unfoldable pub pop : List String → List String
pop [] = []
pop (x ∷ xs) = let rest = pop xs in elim xs [ [] ↦ [] | y ∷ ys ↦ x ∷ rest ]

unfoldable pub push_component : List String → Component → List String
unfolding pop
push_component components (normal c) = components ++ c ∷ []
push_component components root_dir = components ++ "" ∷ []
push_component components parent_dir =
    if ltb 1 (length components) then pop components else components
push_component components cur_dir = components

-- The `for` loop.
unfoldable pub push_components : List String → List Component → List String
unfolding push_component
push_components components [] = components
push_components components (c ∷ cs) = push_components (push_component components c) cs

-- The rest of `components.join("/")` after its first part.
unfoldable pub join_rest : List String → String
join_rest [] = ""
join_rest (x ∷ xs) = "/" <> (x <> join_rest xs)

unfoldable pub join_slash : List String → String
unfolding join_rest
join_slash [] = ""
join_slash (x ∷ xs) = x <> join_rest xs

-- `ends_with('/')`
unfoldable pub ends_with_slash : String → Bool
ends_with_slash nil = false
ends_with_slash (cons c s) =
    let rest = ends_with_slash s in if is_empty_text s then nat_eq (code c) b'/' else rest

unfoldable pub finish_path : (path result : String) → String
unfolding ends_with_slash
finish_path path result =
    if is_empty_text result
    then "/"
    else if ends_with_slash path && not (ends_with_slash result)
    then result <> "/"
    else result

unfoldable pub normalize_path : String → String
unfolding finish_path join_slash push_components path_components
normalize_path path = finish_path path (join_slash (push_components [] (path_components path)))

-- `trim_end_matches('/')`
unfoldable pub trim_end_slashes : String → String
trim_end_slashes nil = ""
trim_end_slashes (cons c s) =
    let rest = trim_end_slashes s in
    if is_empty_text rest && nat_eq (code c) b'/' then "" else cons c rest

-- `starts_with(prefix)` with the test of the byte behind the prefix: the path ends there, or goes on
-- with a slash.
unfoldable pub starts_with_whole : (path prefix : String) → Bool
starts_with_whole path nil = is_empty_text path || starts_with_char b'/' path
starts_with_whole nil (cons d prefix) = false
starts_with_whole (cons c path) (cons d prefix) =
    let rest = starts_with_whole path prefix in nat_eq (code c) (code d) && rest

-- The body of the loop over the allowed paths.
unfoldable pub allows : (allowed normalized : String) → Bool
allows allowed normalized =
    if ends_with_slash allowed
    then starts_with_whole normalized (trim_end_slashes (normalize_path allowed))
    else normalized == normalize_path allowed

unfoldable pub any_allows : List String → String → Bool
unfolding allows
any_allows [] normalized = false
any_allows (allowed ∷ paths) normalized = allows allowed normalized || any_allows paths normalized

abbrev permission_denied : String → CapabilityError
permission_denied message = record { code = "permission_denied"; message = message }

unfoldable pub check_paths : AppManifest → List String → String → Result CapabilityError (Unit {0})
unfolding any_allows
check_paths manifest paths path =
    if is_empty paths
    then err (permission_denied "app fs capability has no allowed paths")
    else if any_allows paths (normalize_path path)
    then ok tt
    else err (
        permission_denied (
          "path "
          <> debug path
          <> " is not in allowed fs paths for app "
          <> debug_app_id manifest.app_id))

unfoldable pub check_fs_permission : AppManifest → String → Result CapabilityError (Unit {0})
unfolding check_paths
check_fs_permission manifest path = elim manifest.capabilities.fs [
  | none ↦ err (permission_denied "app has no fs capability configured")
  | some config ↦ check_paths manifest config.paths path
]

normalize_test : normalize_path "/home//user/./notes/../todo/" ≡ "/home/user/todo/"
unfolding normalize_path finish_path join_slash join_rest push_components push_component pop
    path_components leading_components inner_components split_on starts_with_char ends_with_slash
normalize_test = refl
