-- ===== src/Sdk.antt =====
-- crates/kunkka-worker-sdk/src/types.rs, codec.rs and error.rs: the messages between the core and a
-- worker. `WorkerId` and `AppId` wrap a text and are ordered by it; here they are that text.
pub mod Debug
use kunkka.Base.{String, ◌<>◌, ◌≡◌, Bool, Option, some, List, [], arith}
use kunkka.Base.Fallible.{Result, ok, ◌>>=◌, >>=-eq-ok, map_err, map_err-eq-ok}
use kunkka.Ipc.{Bytes, Payload, IpcError, ipc_display, Postcard}

abbrev pub WorkerId : Type 0
WorkerId = String

abbrev pub AppId : Type 0
AppId = String

pub record WorkerCapability : Type 0 where
  pub name : String
  pub description : Option String

pub record RegisterWorkerRequest : Type 0 where
  pub worker_id : WorkerId
  pub app_id : AppId
  pub capabilities : List WorkerCapability

pub record RegisterWorkerResponse : Type 0 where
  pub worker_id : WorkerId
  pub accepted : Bool
  pub message : Option String

pub record DispatchWorkerRequest : Type 0 where
  pub app_id : AppId
  pub method : String
  pub payload : Payload

pub record WorkerAppError : Type 0 where
  pub code : String
  pub message : String

pub data DispatchWorkerResponse : Type 0 where
  done : Payload → DispatchWorkerResponse
  failed : WorkerAppError → DispatchWorkerResponse

pub data WorkerProtocolMessage : Type 0 where
  register_worker : RegisterWorkerRequest → WorkerProtocolMessage
  register_worker_accepted : RegisterWorkerResponse → WorkerProtocolMessage
  dispatch_worker : DispatchWorkerRequest → WorkerProtocolMessage
  dispatch_worker_result : DispatchWorkerResponse → WorkerProtocolMessage

pub data WorkerSdkError : Type 0 where
  ipc : IpcError → WorkerSdkError
  codec protocol : String → WorkerSdkError

unfoldable pub sdk_display : WorkerSdkError → String
unfolding ipc_display
sdk_display (ipc e) = "ipc error: " <> ipc_display e
sdk_display (codec e) = "codec error: " <> e
sdk_display (protocol e) = "protocol error: " <> e

abbrev pub worker_protocol_content_type : String
worker_protocol_content_type = "application/vnd.kunkka.worker.v1+postcard"

abbrev pub worker_protocol_schema : String
worker_protocol_schema = "kunkka.worker.v1"

module _ (p : Postcard WorkerProtocolMessage) where
  unfoldable pub encode_worker_message : WorkerProtocolMessage → Result WorkerSdkError Payload
  encode_worker_message message = do
    bytes ← map_err codec (p.to_stdvec message)
    ok (record {
      bytes = bytes;
      content_type = some worker_protocol_content_type;
      schema = some worker_protocol_schema;
      metadata = [];
    })

  unfoldable pub decode_worker_message : Payload → Result WorkerSdkError WorkerProtocolMessage
  decode_worker_message payload = map_err codec (p.from_bytes payload.bytes)

  -- A payload that was encoded holds what postcard wrote, and names the protocol.
  pub encode_worker_message-eq-ok :
      (m : WorkerProtocolMessage) (payload : Payload)
      → encode_worker_message m ≡ ok payload
      → (bytes : Bytes) × (p.to_stdvec m ≡ ok bytes)
        × (payload ≡ record {
          bytes = bytes;
          content_type = some "application/vnd.kunkka.worker.v1+postcard";
          schema = some "kunkka.worker.v1";
          metadata = [];
        })
  unfolding encode_worker_message
  encode_worker_message-eq-ok m payload h =
      let (bytes, written, same) = >>=-eq-ok (map_err codec (p.to_stdvec m)) _ h in
      (bytes, map_err-eq-ok codec (p.to_stdvec m) written, ground (arith, same))

  pub decode_worker_message-eq-ok :
      (payload : Payload) (m : WorkerProtocolMessage)
      → decode_worker_message payload ≡ ok m
      → p.from_bytes payload.bytes ≡ ok m
  unfolding decode_worker_message
  decode_worker_message-eq-ok payload m h = map_err-eq-ok codec (p.from_bytes payload.bytes) h
