-- ===== src/Ipc.antt =====
-- crates/kunkka-ipc/src/frame.rs and codec.rs: the frames of the internal protocol and their size
-- limit. `RequestId`, `StreamId` and `SessionId` are plain numbers and `EndpointId` a text, since the
-- source wraps them without a rule of their own. Postcard and the length-delimited Unix socket
-- (transport.rs) are not in the repository: they are the parameters `Postcard` and `Transport`.
use kunkka.Base.{ℕ, ◌*◌, String, ◌<>◌, Bool, Option, List, ltb, length}
use kunkka.Base.Map.{Map}
use kunkka.Base.Text.Decimal.{decimal}
use kunkka.Base.Fallible.{Result, ok, ◌>>=◌, ◌>>◌, fail_if, map_err}

abbrev pub FrameMetadata : Type 0
FrameMetadata = Map String

abbrev pub Bytes : Type 0
Bytes = List ℕ

pub record Payload : Type 0 where
  pub bytes : Bytes
  pub content_type : Option String
  pub schema : Option String
  pub metadata : FrameMetadata

pub data Frame : Type 0 where
  request response :
      (request_id session_id : ℕ) (source target : String) → Payload → FrameMetadata → Frame
  event : (session_id : ℕ) (source target name : String) → Payload → FrameMetadata → Frame
  stream :
      (stream_id : ℕ) (request_id : Option ℕ) (session_id : ℕ) (source target : String)
      → Payload
      → (end : Bool) → FrameMetadata
      → Frame
  cancel :
      (request_id stream_id : Option ℕ) (session_id : ℕ) (source target : String)
      → (reason : Option String) → FrameMetadata
      → Frame
  heartbeat : (session_id : ℕ) (source target : String) → FrameMetadata → Frame
  error :
      (request_id stream_id session_id : Option ℕ) (source target code message : String)
      → FrameMetadata
      → Frame

-- The text of a third-party error is all that the source reads of it.
pub data IpcError : Type 0 where
  io codec : String → IpcError
  frame_too_large : (size max : ℕ) → IpcError
  connection_closed : IpcError

unfoldable pub ipc_display : IpcError → String
ipc_display (io e) = "io error: " <> e
ipc_display (codec e) = "codec error: " <> e
ipc_display connection_closed = "connection closed"
ipc_display (frame_too_large size max) =
    "frame too large: " <> decimal size <> " bytes exceeds max " <> decimal max <> " bytes"

-- `postcard::to_stdvec` and `postcard::from_bytes` at one type, with the texts of their errors.
pub record Postcard (A : Type 0) : Type 0 where
  pub to_stdvec : A → Result String Bytes
  pub from_bytes : Bytes → Result String A

abbrev pub default_max_frame_len : ℕ
default_max_frame_len = 8 * 1024 * 1024

module _ (p : Postcard Frame) where
  unfoldable pub encode_frame_with_limit : Frame → ℕ → Result IpcError Bytes
  encode_frame_with_limit frame max_frame_len = do
    bytes ← map_err codec (p.to_stdvec frame)
    fail_if (ltb max_frame_len (length bytes)) (frame_too_large (length bytes) max_frame_len)
    ok bytes

  unfoldable pub encode_frame : Frame → Result IpcError Bytes
  unfolding encode_frame_with_limit
  encode_frame frame = encode_frame_with_limit frame default_max_frame_len

  unfoldable pub decode_frame : Bytes → Result IpcError Frame
  decode_frame bytes = map_err codec (p.from_bytes bytes)

-- A connected socket: `send_frame` and `recv_frame` of `IpcConnection`, which answer and move on.
pub record Transport : Type 1 where
  pub Connection : Type 0
  pub send_frame : Frame → Connection → Result IpcError (Unit {0}) × Connection
  pub recv_frame : Connection → Result IpcError (Option Frame) × Connection
