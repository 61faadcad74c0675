-- ===== src/Shell.antt =====
-- crates/kunkka-core/src/capability/shell.rs: the `shell` capability. It cuts a command line at its
-- top-level pipes, takes the first word of each stage for the stage's command, and lets the manifest
-- or an approval decide. `/bin/sh` and postcard are the parameter `ShellHost`.
pub mod Pipeline
pub mod Permitted
pub mod Quoted
pub mod Asked
use kunkka.Base.{
  ℕ, zero, suc, String, ◌<>◌, ◌==◌, Bool, true, false, not, Option, none, some, List, [], ◌∷◌, map,
  if◌then◌else◌,
}
use kunkka.Base.Text.Trim.{debug}
use kunkka.Base.Fallible.{Result, ok, err, ◌>>=◌, ok_or, map_err}
use kunkka.Ipc.{Bytes}
use kunkka.Manifest.{AppManifest}
use kunkka.Approval
use kunkka.Approval.{
  ApprovalStore, ApprovalConsumeError, not_found, still_pending, was_rejected, was_expired,
  mismatch, consume_approved, create, Consumed,
}
use kunkka.Permissions.{ShellPolicyDecision, decide_shell_policy}
use kunkka.Shell.Pipeline.{CapabilityError, ParsedStage, parse_pipeline}

pub record ShellRunParams : Type 0 where
  pub command : String
  pub approval_id : Option String

-- `i32`
pub data ℤ : Type 0 where
  pos negsuc : ℕ → ℤ

pub record ShellRunResult : Type 0 where
  pub stdout : String
  pub stderr : String
  pub exit_code : ℤ

pub data ShellRunOutcome : Type 0 where
  completed : ShellRunResult → ShellRunOutcome
  pending_approval : (approval_id : String) → ShellRunOutcome

-- `std::process::Output`
pub record Output : Type 0 where
  pub code : Option ℕ
  pub stdout : Bytes
  pub stderr : Bytes

pub record ShellHost : Type 0 where
  pub from_bytes : Bytes → Result String ShellRunParams
  pub to_stdvec : ShellRunOutcome → Result String Bytes
  pub from_utf8_lossy : Bytes → String
  -- What `/bin/sh -c` answers after the commands run before; `none` is the 30 s timeout.
  pub output : List String → String → Option (Result String Output)

-- The approvals, and the command lines handed to `/bin/sh`, the latest first.
pub record ShellState : Type 0 where
  pub approvals : ApprovalStore
  pub ran : List String

abbrev pub map_approval_consume_error : ApprovalConsumeError → CapabilityError
map_approval_consume_error mismatch = record {
  code = "approval_mismatch";
  message = "approval_id does not match this command";
}
map_approval_consume_error still_pending = record {
  code = "approval_denied";
  message = "approval is still pending";
}
map_approval_consume_error _ = record {
  code = "approval_denied";
  message = "approval was rejected or is unavailable";
}

abbrev pub Answer : Type 0
Answer = Result CapabilityError Bytes × ShellState

module _ (host : ShellHost) where
  abbrev exit_code : Option ℕ → ℤ
  exit_code none = negsuc 0
  exit_code (some c) = pos c

  unfoldable pub completion : Option (Result String Output) → Result CapabilityError ShellRunOutcome
  completion none = err (record { code = "timeout"; message = "shell command timed out after 30s" })
  completion (some (err e)) = err (record { code = "io_error"; message = e })
  completion (some (ok output)) = ok (
      completed (record {
        stdout = host.from_utf8_lossy output.stdout;
        stderr = host.from_utf8_lossy output.stderr;
        exit_code = exit_code output.code;
      }))

  unfoldable pub run_command :
      String → ShellState → Result CapabilityError ShellRunOutcome × ShellState
  unfolding completion
  run_command command st =
      (completion (host.output st.ran command), record st { ran = command ∷ st.ran })

  unfoldable pub encode_outcome : ShellRunOutcome → Result CapabilityError Bytes
  encode_outcome outcome =
      map_err (λ e. record { code = "io_error"; message = "encode result: " <> e })
        (host.to_stdvec outcome)

  -- `encode_outcome(run_command(&params.command).await?)`
  unfoldable pub run_and_encode : String → ShellState → Answer
  unfolding run_command encode_outcome
  run_and_encode command st =
      let (outcome, after) = run_command command st in (outcome >>= encode_outcome, after)

  -- After `consume_approved(…).map_err(…)?`.
  unfoldable pub run_consumed : String → Consumed → List String → Answer
  unfolding run_and_encode
  run_consumed command (err e, approvals) ran =
      (err (map_approval_consume_error e), record { approvals = approvals; ran = ran })
  run_consumed command (ok _, approvals) ran =
      run_and_encode command (record { approvals = approvals; ran = ran })

  -- The `match` on the policy's decision.
  unfoldable pub run_decided :
      ShellPolicyDecision → AppManifest → String → List String → ℕ → ShellState → Answer
  unfolding run_and_encode encode_outcome
  run_decided ShellPolicyDecision.allow manifest command commands now st = run_and_encode command st
  run_decided ShellPolicyDecision.ask manifest command commands now st =
      let (approval_id, approvals) =
        create manifest.app_id "shell" command commands now st.approvals in
      (encode_outcome (pending_approval approval_id), record st { approvals = approvals })
  run_decided ShellPolicyDecision.deny manifest command commands now st = (
    err (record {
      code = "permission_denied";
      message = "shell command is not allowed for app " <> debug manifest.app_id;
    }),
    st,
  )

  unfoldable pub run_parsed :
      AppManifest → ShellRunParams → List ParsedStage → ℕ → ShellState → Answer
  unfolding run_consumed run_decided
  run_parsed manifest params stages now st =
      let commands = map (λ stage. stage.command) stages in
      elim params.approval_id [
        | some approval_id ↦
            run_consumed params.command
              (consume_approved approval_id manifest.app_id "shell" params.command now st.approvals)
              st.ran
        | none ↦
            run_decided (decide_shell_policy manifest commands) manifest params.command commands now
              st
      ]

  -- What the request asks for: its parameters and the stages of its command.
  unfoldable pub read_request :
      String → Bytes → Result CapabilityError (ShellRunParams × List ParsedStage)
  read_request method params =
      if not (method == "run")
      then err (record { code = "unknown_method"; message = "unknown shell method: " <> method })
      else do
        decoded ←
            map_err (λ e. record { code = "invalid_params"; message = "invalid params: " <> e })
              (host.from_bytes params)
        stages ← parse_pipeline decoded.command
        ok (decoded, stages)

  unfoldable pub handle_shell_request : AppManifest → String → Bytes → ℕ → ShellState → Answer
  unfolding read_request run_parsed
  handle_shell_request manifest method params now st = elim (read_request method params) [
    | err e ↦ (err e, st)
    | ok (decoded, stages) ↦ run_parsed manifest decoded stages now st
  ]
