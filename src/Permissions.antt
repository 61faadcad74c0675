-- ===== src/Permissions.antt =====
-- crates/kunkka-core/src/permissions.rs and decide_shell_policy of capability/permissions.rs: what a
-- manifest lets a frontend call and which shell commands it lets the app run.
pub mod Decisions
pub mod Paths
use kunkka.Base.{
  String, ◌<>◌, Bool, true, false, Option, none, some, List, [], ◌∷◌, if◌then◌else◌, contains,
}
use kunkka.Base.Text.Trim.{debug}
use kunkka.Manifest.{AppManifest, ShellCapabilityConfig}

pub data PermissionDecision : Type 0 where
  allow : PermissionDecision
  deny : (code message : String) → PermissionDecision

unfoldable pub decide_frontend_dispatch : AppManifest → String → PermissionDecision
unfolding debug
decide_frontend_dispatch manifest method =
    if contains manifest.permissions.frontend_dispatch.allowed_methods method
    then allow
    else deny "permission_denied" (
        "frontend dispatch method "
        <> debug method
        <> " is not allowed for app "
        <> debug manifest.app_id)

pub data ShellPolicyDecision : Type 0 where
  allow ask deny : ShellPolicyDecision

-- The loop over the commands, with its `saw_ask`.
unfoldable pub decide_commands : ShellCapabilityConfig → Bool → List String → ShellPolicyDecision
decide_commands config saw_ask [] =
    if saw_ask then ShellPolicyDecision.ask else ShellPolicyDecision.allow
decide_commands config saw_ask (command ∷ commands) = elim (contains config.allow command) [
  | true ↦ decide_commands config saw_ask commands
  | false ↦ elim (contains config.ask command) [
    | true ↦ decide_commands config true commands
    | false ↦ ShellPolicyDecision.deny
  ]
]

unfoldable pub decide_shell_policy : AppManifest → List String → ShellPolicyDecision
unfolding decide_commands
decide_shell_policy manifest commands = elim manifest.capabilities.shell [
  | none ↦ ShellPolicyDecision.deny
  | some config ↦ decide_commands config false commands
]
