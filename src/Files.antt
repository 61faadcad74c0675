-- ===== src/Files.antt =====
-- crates/kunkka-core/src/capability/fs.rs: the `fs` capability. The file system is the parameter
-- `FileHost`, whose answers may depend on all that was done before, and postcard its codecs.
pub mod Touched
use Prim.Native.Char.{code}
use Prim.Native.String.{[] as nil, ◌∷◌ as cons}
use kunkka.Base.{
  ℕ, ◌+◌, String, ◌<>◌, ◌==◌, Bool, true, false, Option, none, some, List, [], ◌∷◌, ltb,
  if◌then◌else◌,
}
use kunkka.Base.Fallible.{Result, ok, err, ◌>>=◌, map_err}
use kunkka.Ipc.{Bytes, Postcard}
use kunkka.Manifest.{AppManifest}
use kunkka.Permissions.Paths.{check_fs_permission}
use kunkka.Shell.Pipeline.{CapabilityError}

pub record ReadFileParams : Type 0 where
  pub path : String

pub record ReadFileResult : Type 0 where
  pub content : String

pub record WriteFileParams : Type 0 where
  pub path : String
  pub content : String

pub record WriteFileResult : Type 0 where
  pub bytes_written : ℕ

pub record ListDirParams : Type 0 where
  pub path : String

pub record DirEntry : Type 0 where
  pub name : String
  pub entry_type : String
  pub size : ℕ

pub record ListDirResult : Type 0 where
  pub entries : List DirEntry

-- The kinds of `std::io::Error` that the source tells apart.
pub data ErrorKind : Type 0 where
  not_found permission_denied invalid_data other_kind : ErrorKind

pub record IoFailure : Type 0 where
  pub kind : ErrorKind
  pub text : String

pub data FileType : Type 0 where
  dir file symlink other : FileType

-- An entry that `next_entry` hands over: its name, and what the calls on it answer.
pub record RawEntry : Type 0 where
  pub name : String
  pub file_type : Result String FileType
  pub len : Result String ℕ

-- What the source asks of the file system.
pub data Access : Type 0 where
  read_file list_dir : (path : String) → Access
  write_file : (path content : String) → Access

abbrev pub path_of : Access → String
path_of (read_file path) = path
path_of (list_dir path) = path
path_of (write_file path content) = path

pub record FileHost : Type 0 where
  pub read_params : Postcard ReadFileParams
  pub write_params : Postcard WriteFileParams
  pub list_params : Postcard ListDirParams
  pub read_result : Postcard ReadFileResult
  pub write_result : Postcard WriteFileResult
  pub list_result : Postcard ListDirResult
  pub read_to_string : List Access → String → Result IoFailure String
  pub write : List Access → String → String → Result IoFailure (Unit {0})
  pub read_dir : List Access → String → Result IoFailure (List (Result String RawEntry))

abbrev pub capability_error : (code message : String) → CapabilityError
capability_error code message = record { code = code; message = message }

abbrev io_error : String → CapabilityError
io_error message = capability_error "io_error" message

abbrev invalid_params : String → CapabilityError
invalid_params e = capability_error "invalid_params" ("invalid params: " <> e)

abbrev encode_error : String → CapabilityError
encode_error e = io_error ("encode result: " <> e)

unfoldable pub decode_params : {A : Type 0} → Postcard A → Bytes → Result CapabilityError A
decode_params codec params = map_err invalid_params (codec.from_bytes params)

abbrev pub encode_result : {A : Type 0} → Postcard A → A → Result CapabilityError Bytes
encode_result codec result = map_err encode_error (codec.to_stdvec result)

unfoldable pub read_failure : IoFailure → CapabilityError
read_failure e = elim e.kind [
  | not_found ↦ capability_error "not_found" e.text
  | permission_denied ↦ capability_error "permission_denied" e.text
  | invalid_data ↦ capability_error "not_utf8" e.text
  | other_kind ↦ io_error e.text
]

unfoldable pub write_failure : IoFailure → CapabilityError
write_failure e = elim e.kind [
  | permission_denied ↦ capability_error "permission_denied" e.text
  | _ ↦ io_error e.text
]

unfoldable pub list_failure : IoFailure → CapabilityError
list_failure e = elim e.kind [
  | not_found ↦ capability_error "not_found" e.text
  | permission_denied ↦ capability_error "permission_denied" e.text
  | _ ↦ io_error e.text
]

-- The bytes of a character in UTF-8.
abbrev utf8_len : ℕ → ℕ
utf8_len c = if ltb c 0x80 then 1 else if ltb c 0x800 then 2 else if ltb c 0x10000 then 3 else 4

-- `str::len`
unfoldable pub byte_len : String → ℕ
byte_len nil = 0
byte_len (cons c s) = utf8_len (code c) + byte_len s

unfoldable pub entry_type : FileType → String
entry_type dir = "dir"
entry_type file = "file"
entry_type symlink = "symlink"
entry_type other = "other"

unfoldable pub dir_entry : RawEntry → Result CapabilityError DirEntry
unfolding entry_type
dir_entry entry = do
  file_type ← map_err io_error entry.file_type
  len ← map_err io_error entry.len
  ok (record { name = entry.name; entry_type = entry_type file_type; size = len })

-- The `while` loop over the directory.
unfoldable pub dir_entries : List (Result String RawEntry) → Result CapabilityError (List DirEntry)
unfolding dir_entry
dir_entries [] = ok []
dir_entries (next ∷ rest) = do
  raw ← map_err io_error next
  entry ← dir_entry raw
  entries ← dir_entries rest
  ok (entry ∷ entries)

-- The answer, with all that was asked of the file system, the latest first.
abbrev pub Answer : Type 0
Answer = Result CapabilityError Bytes × List Access

module _ (host : FileHost) where
  -- The permission, then the access, then its result.
  unfoldable pub guarded :
      AppManifest → Access → Result CapabilityError Bytes → List Access → Answer
  guarded manifest access result accesses = elim (check_fs_permission manifest (path_of access)) [
    | err e ↦ (err e, accesses)
    | ok _ ↦ (result, access ∷ accesses)
  ]

  unfoldable pub handle_read_file : AppManifest → ReadFileParams → List Access → Answer
  unfolding read_failure
  handle_read_file manifest p accesses =
      guarded manifest (read_file p.path)
        (map_err read_failure (host.read_to_string accesses p.path) >>= λ content.
          encode_result host.read_result (record { content = content }))
        accesses

  unfoldable pub handle_write_file : AppManifest → WriteFileParams → List Access → Answer
  unfolding write_failure byte_len
  handle_write_file manifest p accesses =
      guarded manifest (write_file p.path p.content)
        (map_err write_failure (host.write accesses p.path p.content) >>= λ _.
          encode_result host.write_result (record { bytes_written = byte_len p.content }))
        accesses

  unfoldable pub handle_list_dir : AppManifest → ListDirParams → List Access → Answer
  unfolding list_failure dir_entries
  handle_list_dir manifest p accesses =
      guarded manifest (list_dir p.path)
        (map_err list_failure (host.read_dir accesses p.path) >>= λ listing.
          dir_entries listing >>= λ entries.
          encode_result host.list_result (record { entries = entries }))
        accesses

  -- `decode_params(params)?` before the rest of an arm.
  abbrev pub with_params :
      {A : Type 0} → Result CapabilityError A → (A → List Access → Answer) → List Access → Answer
  with_params (err e) handle accesses = (err e, accesses)
  with_params (ok p) handle accesses = handle p accesses

  unfoldable pub handle_fs_request :
      AppManifest → (method : String) (params : Bytes) → List Access → Answer
  unfolding handle_read_file handle_write_file handle_list_dir
  handle_fs_request manifest method params accesses =
      if method == "read_file"
      then with_params (decode_params host.read_params params) (handle_read_file manifest) accesses
      else if method == "write_file"
      then with_params (decode_params host.write_params params) (handle_write_file manifest)
          accesses
      else if method == "list_dir"
      then with_params (decode_params host.list_params params) (handle_list_dir manifest) accesses
      else (err (capability_error "unknown_method" ("unknown fs method: " <> method)), accesses)
