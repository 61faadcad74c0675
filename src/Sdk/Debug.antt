-- ===== src/Sdk/Debug.antt =====
-- The derived `Debug` of the types in crates/kunkka-worker-sdk/src/types.rs and of `Payload` in
-- crates/kunkka-ipc/src/frame.rs, as `{:?}` prints it.
use kunkka.Base.{String, ◌<>◌, ◌≡◌, refl, Bool, true, false, Option, none, some, List, [], ◌∷◌}
use kunkka.Base.Text.Decimal.{decimal}
use kunkka.Base.Text.Trim.{debug}
use kunkka.Base.Map.{Map}
use kunkka.Ipc.{Payload}
use kunkka.Sdk.{
  AppId, WorkerId, WorkerCapability, RegisterWorkerRequest, RegisterWorkerResponse,
  DispatchWorkerRequest, DispatchWorkerResponse, WorkerProtocolMessage, register_worker,
  register_worker_accepted, dispatch_worker, dispatch_worker_result, done, failed,
}

unfoldable pub debug_app_id : AppId → String
unfolding debug
debug_app_id app_id = "AppId(" <> (debug app_id <> ")")

debug_worker_id : WorkerId → String
debug_worker_id worker_id = "WorkerId(" <> (debug worker_id <> ")")

debug_bool : Bool → String
debug_bool true = "true"
debug_bool false = "false"

debug_option : Option String → String
debug_option none = "None"
debug_option (some s) = "Some(" <> (debug s <> ")")

-- What follows the first item of a list.
more_items {ℓ} : {A : Type ℓ} → (A → String) → List A → String
more_items show [] = ""
more_items show (x ∷ xs) = ", " <> (show x <> more_items show xs)

items {ℓ} : {A : Type ℓ} → (A → String) → List A → String
items show [] = ""
items show (x ∷ xs) = show x <> more_items show xs

debug_list {ℓ} : {A : Type ℓ} → (A → String) → List A → String
debug_list show xs = "[" <> (items show xs <> "]")

debug_entry : String × String → String
debug_entry (k, v) = debug k <> (": " <> debug v)

debug_map : Map String → String
debug_map m = "{" <> (items debug_entry m <> "}")

debug_payload : Payload → String
debug_payload payload =
    "Payload { bytes: "
    <> (debug_list decimal payload.bytes
        <> (", content_type: "
            <> (debug_option payload.content_type
                <> (", schema: "
                    <> (debug_option payload.schema
                        <> (", metadata: " <> (debug_map payload.metadata <> " }")))))))

debug_capability : WorkerCapability → String
debug_capability c =
    "WorkerCapability { name: "
    <> (debug c.name <> (", description: " <> (debug_option c.description <> " }")))

debug_registration : RegisterWorkerRequest → String
debug_registration r =
    "RegisterWorkerRequest { worker_id: "
    <> (debug_worker_id r.worker_id
        <> (", app_id: "
            <> (debug_app_id r.app_id
                <> (", capabilities: " <> (debug_list debug_capability r.capabilities <> " }")))))

debug_accepted : RegisterWorkerResponse → String
debug_accepted r =
    "RegisterWorkerResponse { worker_id: "
    <> (debug_worker_id r.worker_id
        <> (", accepted: "
            <> (debug_bool r.accepted <> (", message: " <> (debug_option r.message <> " }")))))

debug_dispatch : DispatchWorkerRequest → String
debug_dispatch r =
    "DispatchWorkerRequest { app_id: "
    <> (debug_app_id r.app_id
        <> (", method: "
            <> (debug r.method <> (", payload: " <> (debug_payload r.payload <> " }")))))

debug_response : DispatchWorkerResponse → String
debug_response (done payload) = "Ok(" <> (debug_payload payload <> ")")
debug_response (failed e) =
    "Err(WorkerAppError { code: " <> (debug e.code <> (", message: " <> (debug e.message <> " })")))

unfoldable pub debug_worker_message : WorkerProtocolMessage → String
unfolding debug_registration debug_accepted debug_dispatch debug_response debug_payload debug_list
    debug_capability debug_worker_id debug_app_id debug_option debug_bool items more_items debug_map
    debug_entry
debug_worker_message (register_worker r) = "RegisterWorker(" <> (debug_registration r <> ")")
debug_worker_message (register_worker_accepted r) =
    "RegisterWorkerAccepted(" <> (debug_accepted r <> ")")
debug_worker_message (dispatch_worker r) = "DispatchWorker(" <> (debug_dispatch r <> ")")
debug_worker_message (dispatch_worker_result r) =
    "DispatchWorkerResult(" <> (debug_response r <> ")")

worker_message_test :
    debug_worker_message
      (register_worker_accepted (record { worker_id = "notes"; accepted = true; message = none }))
    ≡ "RegisterWorkerAccepted(RegisterWorkerResponse { worker_id: WorkerId(\"notes\"), accepted: true, message: None })"
unfolding debug_worker_message debug_accepted debug_worker_id debug_bool debug_option debug
worker_message_test = refl
