-- ===== src/Files/Touched.antt =====
-- What the `fs` capability asks of the file system.
use mathlib.Core.List.{Memᴰ}
use kunkka.Base.{String, ◌≡◌, ◌⊎◌, false, List, ◌∷◌}
use kunkka.Base.Fallible.{Result, ok, err}
use kunkka.Ipc.{Bytes}
use kunkka.Manifest.{AppManifest, FsCapabilityConfig}
use kunkka.Permissions.Paths.{is_absolute, check_fs_permission}
use kunkka.Permissions.Paths.Within.{Grants}
use kunkka.Shell.Pipeline.{CapabilityError}
use kunkka.Files.{FileHost, Access, path_of, Answer}

-- At most one access is added, and the permission was there for its path. A refusal adds none.
pub data Touches (manifest : AppManifest) (accesses : List Access) : Answer → Type 0 where
  refused : (e : CapabilityError) → Touches manifest accesses (err e, accesses)
  touched :
      (access : Access) (result : Result CapabilityError Bytes)
      → check_fs_permission manifest (path_of access) ≡ ok tt
      → Touches manifest accesses (result, access ∷ accesses)

module _ (host : FileHost) (manifest : AppManifest) where
  -- A path that an entry grants, or a relative path, of which nothing is said.
  abbrev pub Allowed : FsCapabilityConfig → Access → Type 0
  Allowed config access =
      (is_absolute (path_of access) ≡ false)
      ⊎ ((allowed : String) × Memᴰ allowed config.paths × Grants allowed (path_of access))
