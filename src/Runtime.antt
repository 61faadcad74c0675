-- ===== src/Runtime.antt =====
-- crates/kunkka-core/src/runtime.rs, the part that answers frontends, and the audit rows of
-- database.rs. `Env` gathers what the core asks of code that is not in the repository: SQLite, the
-- socket, the file system, the operating system and postcard. Log lines are left out.
pub mod Frames
pub mod Audited
pub mod Replies
pub mod Invariant
pub mod Connection
use kunkka.Base.{
  ℕ, String, ◌<>◌, ◌==◌, Bool, true, false, not, ◌&&◌, ◌||◌, Option, none, some, List, [], ◌∷◌,
  if◌then◌else◌,
}
use kunkka.Base.Text.Trim.{is_empty_text}
use kunkka.Base.Fallible.{Result, ok, err, map_err}
use kunkka.Ipc.{Frame, Payload, Postcard, Transport}
use kunkka.Sdk.{WorkerProtocolMessage}
use kunkka.CoreError
use kunkka.CoreError.{CoreError, display}
use kunkka.Protocol
use kunkka.Protocol.{
  CoreControlMessage, FrontendDispatchRequest, FrontendDispatchResponse, FrontendDispatchMessage,
  ThemeFlavor, platform_error, core_control_schema, frontend_dispatch_schema,
  encode_control_message, decode_control_message, encode_frontend_dispatch_message,
  decode_frontend_dispatch_message,
}
use kunkka.Approval
use kunkka.Approval.{ApprovalStore}
use kunkka.Manifest.{AppManifest}
use kunkka.Manifest.Loading
use kunkka.Permissions.{PermissionDecision, decide_frontend_dispatch}
use kunkka.Registry
use kunkka.Theme.{ThemeConfig, switch_flavor}
use kunkka.Dispatch.{
  WorkerManager, Os, DispatchResult, answered, app_error, request_parts, target_or_core,
}
use kunkka.Dispatch.Send.{Arrival, dispatch_with_start, Dispatched}

-- A row of the table `frontend_dispatch_audit`.
pub record AuditRow : Type 0 where
  pub app_id : String
  pub method : String
  pub decision : String
  pub reason_code : String

pub record Env (t : Transport) : Type 0 where
  pub worker_messages : Postcard WorkerProtocolMessage
  pub control_messages : Postcard CoreControlMessage
  pub dispatch_messages : Postcard FrontendDispatchMessage
  pub os : Os
  -- What the `INSERT` of a row answers, after the rows written before.
  pub insert : List AuditRow → AuditRow → Result String (Unit {0})
  pub save_theme : ThemeConfig → Result String (Unit {0})
  pub socket_path : String

module _ (t : Transport) (env : Env t) where
  -- `broadcast` lists the flavors sent to the frontends, and `audit` the rows, the latest first.
  pub record Core : Type 0 where
    pub manager : WorkerManager t env.worker_messages
    pub approvals : ApprovalStore
    pub audit : List AuditRow
    pub theme : ThemeConfig
    pub broadcast : List ThemeFlavor

  abbrev pub known_decision : String → Bool
  known_decision decision = decision == "allow" || decision == "deny"

  abbrev pub known_reason : String → Bool
  known_reason reason_code =
      reason_code == "allowed"
      || reason_code == "app_not_found"
      || reason_code == "permission_denied"

  -- `CoreDatabase::record_frontend_dispatch_audit`.
  unfoldable pub record_frontend_dispatch_audit :
      (app_id method decision reason_code : String)
      → List AuditRow
      → Result CoreError (Unit {0}) × List AuditRow
  record_frontend_dispatch_audit app_id method decision reason_code rows =
      let row : AuditRow = record {
        app_id = app_id;
        method = method;
        decision = decision;
        reason_code = reason_code;
      } in
      if not (known_decision decision)
      then (err (CoreError.database ("invalid decision: " <> decision)), rows)
      else if not (known_reason reason_code)
      then (err (CoreError.database ("invalid reason_code: " <> reason_code)), rows)
      else elim (env.insert rows row) [
        | err e ↦
            (err (CoreError.database ("failed to insert frontend dispatch audit: " <> e)), rows)
        | ok _ ↦ (ok tt, row ∷ rows)
      ]

  unfoldable pub dispatch_platform_error_code : CoreError → String
  dispatch_platform_error_code (CoreError.app_not_found _) = "app_not_found"
  dispatch_platform_error_code (CoreError.worker_start_failed _) = "worker_start_failed"
  dispatch_platform_error_code (CoreError.worker_start_timeout _) = "worker_start_timeout"
  dispatch_platform_error_code (CoreError.worker_unavailable _) = "worker_unavailable"
  dispatch_platform_error_code (CoreError.dispatch_ipc_error _) = "dispatch_ipc_error"
  dispatch_platform_error_code (CoreError.unexpected_worker_response _) =
      "unexpected_worker_response"
  dispatch_platform_error_code (CoreError.invalid_core_frame _) = "invalid_request"
  dispatch_platform_error_code _ = "core_error"

  -- The final `match` of `handle_frontend_dispatch_request`.
  unfoldable pub response_of : Result CoreError DispatchResult → FrontendDispatchResponse
  unfolding dispatch_platform_error_code display
  response_of (ok (answered payload)) = FrontendDispatchResponse.done payload
  response_of (ok (app_error code message)) = FrontendDispatchResponse.app_error code message
  response_of (err e) = platform_error (dispatch_platform_error_code e) (display e)

  abbrev pub Answer : Type 0
  Answer = FrontendDispatchResponse × Core

  abbrev pub audit_failed : FrontendDispatchResponse
  audit_failed = platform_error "core_error" "audit write failed"

  -- What writing a row leaves: its result and the table.
  abbrev pub Written : Type 0
  Written = Result CoreError (Unit {0}) × List AuditRow

  abbrev pub finish_refuse : (code message : String) → Written → Core → Answer
  finish_refuse code message (err _, rows) c = (audit_failed, record c { audit = rows })
  finish_refuse code message (ok _, rows) c =
      (platform_error code message, record c { audit = rows })

  -- A request that is refused: the refusal is audited, and a failed audit is what gets reported.
  unfoldable pub refuse : (code message : String) → FrontendDispatchRequest → Core → Answer
  refuse code message request c =
      finish_refuse code message
        (record_frontend_dispatch_audit request.app_id request.method "deny" code c.audit) c

  abbrev pub finish_permit :
      List (Arrival t env.worker_messages)
      → (now : ℕ) → FrontendDispatchRequest
      → Written
      → Core
      → Answer
  finish_permit arrivals now request (err _, rows) c = (audit_failed, record c { audit = rows })
  finish_permit arrivals now request (ok _, rows) c =
      let (result, manager) =
        dispatch_with_start t env.worker_messages env.os arrivals request.app_id request.method
          request.payload now c.manager in
      (response_of result, record c { audit = rows; manager = manager })

  unfoldable pub permit :
      List (Arrival t env.worker_messages) → (now : ℕ) → FrontendDispatchRequest → Core → Answer
  permit arrivals now request c =
      finish_permit arrivals now request
        (record_frontend_dispatch_audit request.app_id request.method "allow" "allowed" c.audit) c

  unfoldable pub decide :
      Option AppManifest
      → List (Arrival t env.worker_messages)
      → (now : ℕ) → FrontendDispatchRequest
      → Core
      → Answer
  unfolding refuse permit
  decide none arrivals now request c =
      refuse "app_not_found" ("app not found: " <> request.app_id) request c
  decide (some manifest) arrivals now request c =
      elim (decide_frontend_dispatch manifest request.method) [
        | PermissionDecision.deny code message ↦ refuse code message request c
        | PermissionDecision.allow ↦ permit arrivals now request c
      ]

  -- It has no error of its own: the source's `Result` is always `Ok`.
  unfoldable pub handle_frontend_dispatch_request :
      List (Arrival t env.worker_messages) → (now : ℕ) → FrontendDispatchRequest → Core → Answer
  unfolding decide
  handle_frontend_dispatch_request arrivals now request c =
      if is_empty_text request.app_id
      then (platform_error "invalid_request" "dispatch app_id is empty", c)
      else if is_empty_text request.method
      then (platform_error "invalid_request" "dispatch method is empty", c)
      else decide (Loading.get c.manager.app_registry request.app_id) arrivals now request c
