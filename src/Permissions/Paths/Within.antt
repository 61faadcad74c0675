-- ===== src/Permissions/Paths/Within.antt =====
-- Which paths `check_fs_permission` lets an app use.
use kunkka.Base.{String, ◌≡◌, true, false, List, ◌++◌}
use kunkka.Permissions.Paths.{ends_with_slash}
use kunkka.Permissions.Paths.Resolve.{resolve}

-- An entry that ends with a slash lets an app use the directory and all below it, another entry only
-- what it names.
pub data Grants (allowed path : String) : Type 0 where
  below :
      (more : List String)
      → ends_with_slash allowed ≡ true
      → resolve allowed ++ more ≡ resolve path
      → Grants allowed path
  exactly : ends_with_slash allowed ≡ false → resolve path ≡ resolve allowed → Grants allowed path
