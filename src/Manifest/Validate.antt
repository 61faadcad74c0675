-- ===== src/Manifest/Validate.antt =====
-- `AppManifest::validate` of crates/kunkka-core/src/app_manifest.rs.
use kunkka.Base.{String, ◌<>◌, Bool, not, Option, none, some, List, [], ◌∷◌, ◌==◌, contains}
use kunkka.Base.Text.Trim.{trim, is_empty_text, starts_with_char, debug}
use kunkka.Base.Fallible.{Result, ok, ◌>>◌, fail_if}
use kunkka.CoreError.{CoreError, manifest_invalid}
use kunkka.Manifest.{
  FsCapabilityConfig, ShellCapabilityConfig, HttpCapabilityConfig, LlmCapabilityConfig, AppManifest,
}

abbrev pub Check : Type 0
Check = Result CoreError (Unit {0})

abbrev pub is_blank : String → Bool
is_blank s = is_empty_text (trim s)

-- `for x in xs { check(x)?; }`
unfoldable pub for_each : (String → Check) → List String → Check
for_each check [] = ok tt
for_each check (x ∷ xs) = check x >> for_each check xs

-- `if let Some(c) = … { check(c)?; }`
abbrev pub for_config : {A : Type 0} → (A → Check) → Option A → Check
for_config check none = ok tt
for_config check (some c) = check c

abbrev pub fail_when : Bool → String → String → Check
fail_when bad path what = fail_if bad (manifest_invalid (path <> what))

abbrev pub check_method : String → String → Check
check_method path method =
    fail_when (is_blank method) path
      ": permissions.frontend_dispatch.allowed_methods contains blank method"

abbrev pub check_fs_path : String → String → Check
check_fs_path path fs_path = do
  fail_when (is_blank fs_path) path ": capabilities.fs.paths contains blank path"
  fail_when (not (starts_with_char b'/' fs_path)) path
      (": capabilities.fs.paths contains non-absolute path: " <> fs_path)

abbrev pub check_fs : String → FsCapabilityConfig → Check
check_fs path c = for_each (check_fs_path path) c.paths

abbrev pub check_allow : String → String → Check
check_allow path command =
    fail_when (is_blank command) path ": capabilities.shell.allow contains blank command"

abbrev pub check_ask : String → String → Check
check_ask path command =
    fail_when (is_blank command) path ": capabilities.shell.ask contains blank command"

abbrev pub check_not_asked : String → List String → String → Check
check_not_asked path ask command =
    fail_when (contains ask command) path
      (": capabilities.shell command " <> debug command <> " cannot appear in both allow and ask")

abbrev pub check_shell : String → ShellCapabilityConfig → Check
check_shell path c = do
  for_each (check_allow path) c.allow
  for_each (check_ask path) c.ask
  for_each (check_not_asked path c.ask) c.allow

abbrev pub check_domain : String → String → Check
check_domain path domain = do
  fail_when (is_blank domain) path ": capabilities.http.domains contains blank domain"
  fail_when (not (domain == trim domain)) path (
      ": capabilities.http.domains contains domain with leading or trailing whitespace: "
      <> debug domain)

abbrev pub check_http : String → HttpCapabilityConfig → Check
check_http path c = for_each (check_domain path) c.domains

abbrev pub check_role : String → String → Check
check_role path role = fail_when (is_blank role) path ": capabilities.llm.roles contains blank role"

abbrev pub check_llm : String → LlmCapabilityConfig → Check
check_llm path c = for_each (check_role path) c.roles

unfoldable pub validate : AppManifest → String → Check
unfolding for_each
validate m path = do
  fail_when (is_blank m.app_id) path ": app_id is required"
  fail_when (is_blank m.worker.program) path ": worker.program is required"
  for_each (check_method path) m.permissions.frontend_dispatch.allowed_methods
  for_config (check_fs path) m.capabilities.fs
  for_config (check_shell path) m.capabilities.shell
  for_config (check_http path) m.capabilities.http
  for_config (check_llm path) m.capabilities.llm
