-- ===== src/Native.antt =====
-- crates/kunkka-native-host/src/error.rs and native_protocol.rs: the requests that a browser extension
-- sends to the native host, and the answers. The JSON value of a dispatch and the JSON parser are not in
-- the repository, so they are the parameters `V` and `SerdeJson`.
pub mod Messaging
pub mod Bridge
pub mod Host
pub mod Framing
pub mod Session
pub mod Served
use kunkka.Base.{ℕ, String, ◌<>◌, Bool, true, false, Option, none, some, List, ◌==◌, if◌then◌else◌}
use kunkka.Base.Fallible.{Result, ok, err, ◌>>=◌, ◌>>◌, fail_if, map_err}
use kunkka.Base.Text.Trim.{is_empty_text}
use kunkka.Ipc.{Bytes}

-- `ErrorKind::UnexpectedEof` is the one kind that the source asks for.
pub data IoError : Type 0 where
  unexpected_eof other : (text : String) → IoError

abbrev io_text : IoError → String
io_text (unexpected_eof text) = text
io_text (other text) = text

pub data NativeErrorCode : Type 0 where
  invalid_request core_unavailable core_ipc_error unexpected_core_response : NativeErrorCode

unfoldable pub code_text : NativeErrorCode → String
code_text invalid_request = "invalid_request"
code_text core_unavailable = "core_unavailable"
code_text core_ipc_error = "core_ipc_error"
code_text unexpected_core_response = "unexpected_core_response"

pub data NativeHostError : Type 0 where
  io : IoError → NativeHostError
  json invalid_request core_unavailable core_ipc unexpected_core_response :
      (text : String) → NativeHostError
  core_platform : (code message : String) → NativeHostError

unfoldable pub native_display : NativeHostError → String
native_display (NativeHostError.io e) = "io error: " <> io_text e
native_display (NativeHostError.json text) = "json error: " <> text
native_display (NativeHostError.invalid_request text) = "invalid request: " <> text
native_display (NativeHostError.core_unavailable text) = "core unavailable: " <> text
native_display (NativeHostError.core_ipc text) = "core ipc error: " <> text
native_display (NativeHostError.unexpected_core_response text) =
    "unexpected core response: " <> text
native_display (NativeHostError.core_platform code message) =
    "core platform error " <> code <> ": " <> message

unfoldable pub code : NativeHostError → NativeErrorCode
code (NativeHostError.invalid_request text) = invalid_request
code (NativeHostError.json text) = invalid_request
code (NativeHostError.io e) = invalid_request
code (NativeHostError.core_unavailable text) = core_unavailable
code (NativeHostError.core_ipc text) = core_ipc_error
code (NativeHostError.unexpected_core_response text) = unexpected_core_response
code (NativeHostError.core_platform c message) = unexpected_core_response

-- `serde_json::to_vec` and `serde_json::from_slice` at one type, with the texts of their errors.
pub record SerdeJson (A : Type 0) : Type 0 where
  pub to_vec : A → Result String Bytes
  pub from_slice : Bytes → Result String A

pub record NativePendingApproval : Type 0 where
  pub approval_id : String
  pub app_id : String
  pub capability : String
  pub summary : String

pub record NativeErrorBody : Type 0 where
  pub code : String
  pub message : String

module _ (V : Type 0) where
  pub data NativeCommand : Type 0 where
    ping status approvals_list : NativeCommand
    dispatch : (app_id method : String) (payload : V) → NativeCommand
    approval_approve approval_reject : (approval_id : String) → NativeCommand

  pub record NativeRequest : Type 0 where
    pub id : String
    pub command : NativeCommand

  pub data NativeResult : Type 0 where
    pong approval_decision : NativeResult
    status : (worker_count : ℕ) (socket_path : String) (runtime_ready : Bool) → NativeResult
    dispatch : (payload : V) → NativeResult
    dispatch_error : (code message : String) → NativeResult
    pending_approvals : List NativePendingApproval → NativeResult

  pub record NativeResponse : Type 0 where
    pub id : Option String
    pub ok : Bool
    pub result : Option NativeResult
    pub error : Option NativeErrorBody

-- `filter(|id| !id.is_empty())`
unfoldable pub non_empty_id : Option String → Option String
non_empty_id none = none
non_empty_id (some id) = if is_empty_text id then none else some id

module _ {V : Type 0} where
  unfoldable pub success_response : String → NativeResult V → NativeResponse V
  success_response id result = record {
    id = some id;
    ok = true;
    result = some result;
    error = none;
  }

  unfoldable pub error_response : Option String → (code message : String) → NativeResponse V
  error_response id code message = record {
    id = id;
    ok = false;
    result = none;
    error = some (record { code = code; message = message });
  }

  -- The checks of `decode_request` on the fields of a command.
  unfoldable pub check_command : NativeCommand V → Result NativeHostError (Unit {0})
  check_command (NativeCommand.dispatch app_id method payload) =
      fail_if (is_empty_text app_id) (NativeHostError.invalid_request "dispatch app_id is empty")
      >> fail_if (is_empty_text method) (NativeHostError.invalid_request "dispatch method is empty")
  check_command (NativeCommand.approval_approve approval_id) =
      fail_if (is_empty_text approval_id) (NativeHostError.invalid_request "approval_id is empty")
  check_command (NativeCommand.approval_reject approval_id) =
      fail_if (is_empty_text approval_id) (NativeHostError.invalid_request "approval_id is empty")
  check_command NativeCommand.ping = ok tt
  check_command NativeCommand.status = ok tt
  check_command NativeCommand.approvals_list = ok tt

  unfoldable pub decode_request :
      SerdeJson (NativeRequest V) → Bytes → Result NativeHostError (NativeRequest V)
  unfolding check_command
  decode_request requests bytes = do
    request ← map_err NativeHostError.json (requests.from_slice bytes)
    fail_if (is_empty_text request.id) (NativeHostError.invalid_request "missing request id")
    check_command request.command
    ok request

  -- `id_of` is `value.get("id").and_then(|id| id.as_str())`.
  unfoldable pub extract_request_id : SerdeJson V → (V → Option String) → Bytes → Option String
  unfolding non_empty_id
  extract_request_id values id_of bytes = elim (values.from_slice bytes) [
    | err e ↦ none
    | ok value ↦ non_empty_id (id_of value)
  ]
