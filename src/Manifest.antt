-- ===== src/Manifest.antt =====
-- crates/kunkka-core/src/app_manifest.rs: what an app may do, read from its manifest file. The JSON
-- text of a manifest is parsed by serde; a parsed file is a `RawAppManifest`, whose timeouts have
-- their serde defaults. `path` is the file's display, which only error texts use.
pub mod Validate
pub mod WellFormed
pub mod Loading
pub mod Loaded
use mathlib.Core.Option
use kunkka.Base.{ℕ, String, ◌<>◌, Option, none, some, List, []}
use kunkka.Base.Map.{Map}
use kunkka.Base.Fallible.{Result, ok, err, ◌>>=◌, ok_or}
use kunkka.Sdk.{AppId}
use kunkka.CoreError.{CoreError, manifest_invalid}

pub record WorkerCommand : Type 0 where
  pub program : String
  pub args : List String
  pub env : Map String
  pub cwd : Option String

pub record FrontendDispatchPermissions : Type 0 where
  pub allowed_methods : List String

pub record AppPermissions : Type 0 where
  pub frontend_dispatch : FrontendDispatchPermissions

pub record FsCapabilityConfig : Type 0 where
  pub paths : List String

pub record ShellCapabilityConfig : Type 0 where
  pub allow : List String
  pub ask : List String

pub record HttpCapabilityConfig : Type 0 where
  pub domains : List String

pub record LlmCapabilityConfig : Type 0 where
  pub roles : List String

pub record CapabilitiesConfig : Type 0 where
  pub fs : Option FsCapabilityConfig
  pub shell : Option ShellCapabilityConfig
  pub http : Option HttpCapabilityConfig
  pub llm : Option LlmCapabilityConfig

pub record AppManifest : Type 0 where
  pub app_id : AppId
  pub worker : WorkerCommand
  pub permissions : AppPermissions
  pub capabilities : CapabilitiesConfig
  pub idle_timeout_ms : ℕ
  pub startup_timeout_ms : ℕ

pub record RawWorkerCommand : Type 0 where
  pub program : Option String
  pub args : Option (List String)
  pub env : Map String
  pub cwd : Option String

pub record RawFrontendDispatchPermissions : Type 0 where
  pub allowed_methods : Option (List String)

pub record RawAppPermissions : Type 0 where
  pub frontend_dispatch : Option RawFrontendDispatchPermissions

pub record RawFsCapabilityConfig : Type 0 where
  pub paths : Option (List String)

pub record RawShellCapabilityConfig : Type 0 where
  pub allow : Option (List String)
  pub ask : Option (List String)

pub record RawHttpCapabilityConfig : Type 0 where
  pub domains : Option (List String)

pub record RawLlmCapabilityConfig : Type 0 where
  pub roles : Option (List String)

pub record RawCapabilitiesConfig : Type 0 where
  pub fs : Option RawFsCapabilityConfig
  pub shell : Option RawShellCapabilityConfig
  pub http : Option RawHttpCapabilityConfig
  pub llm : Option RawLlmCapabilityConfig

pub record RawAppManifest : Type 0 where
  pub app_id : AppId
  pub worker : RawWorkerCommand
  pub permissions : Option RawAppPermissions
  pub capabilities : Option RawCapabilitiesConfig
  pub idle_timeout_ms : ℕ
  pub startup_timeout_ms : ℕ

abbrev pub default_idle_timeout_ms : ℕ
default_idle_timeout_ms = 300_000

abbrev pub default_startup_timeout_ms : ℕ
default_startup_timeout_ms = 10_000

-- `unwrap_or_default` of a list.
abbrev pub or_empty : Option (List String) → List String
or_empty none = []
or_empty (some xs) = xs

abbrev pub methods_from_raw : Option RawAppPermissions → List String
methods_from_raw none = []
methods_from_raw (some p) = elim p.frontend_dispatch [
  | none ↦ []
  | some fd ↦ or_empty fd.allowed_methods
]

abbrev pub no_capabilities : CapabilitiesConfig
no_capabilities = record { fs = none; shell = none; http = none; llm = none }

abbrev pub capabilities_from_raw : Option RawCapabilitiesConfig → CapabilitiesConfig
capabilities_from_raw none = no_capabilities
capabilities_from_raw (some c) = record {
  fs = Option.map (λ f. record { paths = or_empty f.paths }) c.fs;
  shell = Option.map (λ s. record { allow = or_empty s.allow; ask = or_empty s.ask }) c.shell;
  http = Option.map (λ h. record { domains = or_empty h.domains }) c.http;
  llm = Option.map (λ l. record { roles = or_empty l.roles }) c.llm;
}

unfoldable pub from_raw : RawAppManifest → String → Result CoreError AppManifest
from_raw raw path = do
  program ← ok_or raw.worker.program (manifest_invalid (path <> ": worker.program is required"))
  args ← ok_or raw.worker.args (manifest_invalid (path <> ": worker.args is required"))
  ok (record {
    app_id = raw.app_id;
    worker = record { program = program; args = args; env = raw.worker.env; cwd = raw.worker.cwd };
    permissions = record {
      frontend_dispatch = record { allowed_methods = methods_from_raw raw.permissions };
    };
    capabilities = capabilities_from_raw raw.capabilities;
    idle_timeout_ms = raw.idle_timeout_ms;
    startup_timeout_ms = raw.startup_timeout_ms;
  })
