-- ===== src/Registry/Registration.antt =====
-- `handle_worker_registration_frame` of crates/kunkka-core/src/worker_registry.rs.
use kunkka.Base.{ℕ, String, Option, none, some, []}
use kunkka.Base.Fallible.{Result, ok, err, ◌>>=◌, ok_or, map_err}
use kunkka.Ipc.{Frame, Postcard}
use kunkka.Sdk.{
  WorkerProtocolMessage, RegisterWorkerRequest, RegisterWorkerResponse, register_worker,
  register_worker_accepted, encode_worker_message, decode_worker_message,
}
use kunkka.CoreError.{CoreError}
use kunkka.Registry.{WorkerRegistry, register}
use kunkka.Registry.Bijection.{IsValid, register-IsValid}
use kunkka.Dispatch.{target_or_core}

abbrev requested : WorkerProtocolMessage → Option RegisterWorkerRequest
requested (register_worker request) = some request
requested _ = none

module _ (p : Postcard WorkerProtocolMessage) where
  abbrev pub Addresses : Type 0
  Addresses = ℕ × ℕ × String × String

  -- The frame up to the request that it carries.
  unfoldable pub read_request : Frame → Result CoreError (Addresses × RegisterWorkerRequest)
  read_request frame = elim frame [
    | Frame.request request_id session_id source target payload metadata ↦ do
      message ← map_err CoreError.worker_sdk (decode_worker_message p payload)
      request ←
          ok_or (requested message)
            (CoreError.invalid_worker_frame "expected worker registration request")
      ok ((request_id, session_id, source, target), request)
    | _ ↦ err (CoreError.invalid_worker_frame "expected request frame")
  ]

  -- The response, from the registry that is changed already.
  unfoldable pub accept :
      Addresses → RegisterWorkerResponse × WorkerRegistry → Result CoreError Frame × WorkerRegistry
  accept (request_id, session_id, source, target) (response, registry) = (
    map_err CoreError.worker_sdk (encode_worker_message p (register_worker_accepted response))
        >>= λ payload.
            ok (Frame.response request_id session_id (target_or_core target) source payload []),
    registry,
  )

  abbrev pub register_request :
      Result CoreError (Addresses × RegisterWorkerRequest)
      → WorkerRegistry
      → Result CoreError Frame × WorkerRegistry
  register_request (err e) registry = (err e, registry)
  register_request (ok (addresses, request)) registry = accept addresses (register request registry)

  unfoldable pub handle_worker_registration_frame :
      WorkerRegistry → Frame → Result CoreError Frame × WorkerRegistry
  unfolding read_request accept
  handle_worker_registration_frame registry frame = register_request (read_request frame) registry

  register_request-IsValid :
      (read : Result CoreError (Addresses × RegisterWorkerRequest)) (registry : WorkerRegistry)
      → IsValid registry
      → IsValid ((register_request read registry).1)
  unfolding accept
  register_request-IsValid (err e) registry valid = valid
  register_request-IsValid (ok (addresses, request)) registry valid =
      register-IsValid request registry valid

  -- A registration frame, well formed or not, keeps the two maps of the registry in step.
  pub handle_worker_registration_frame-IsValid :
      (registry : WorkerRegistry) (frame : Frame)
      → IsValid registry
      → IsValid ((handle_worker_registration_frame registry frame).1)
  unfolding handle_worker_registration_frame
  handle_worker_registration_frame-IsValid registry frame valid =
      register_request-IsValid (read_request frame) registry valid
