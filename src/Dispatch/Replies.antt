-- ===== src/Dispatch/Replies.antt =====
-- What a dispatch that returns has exchanged with the worker.
use kunkka.Base.{
  ℕ, ◌+◌, ◌%◌, String, ◌<>◌, ◌≡◌, refl, sym, ap, subst, ◌∙◌, inl, inr, Option, none, some, [],
  arith, nat_eq, nat_eq_iff, Option-cases, Bool-cases,
}
use kunkka.Base.Map
use kunkka.Base.Map.{get-insert}
use kunkka.Base.Text.Trim.{is_empty_text}
use kunkka.Base.Fallible.{Result, ok, err, >>=-eq-ok, map_err, map_err-eq-ok}
use kunkka.Ipc.{Bytes, Postcard, Transport, Frame, Payload, IpcError}
use kunkka.Sdk.{
  AppId, WorkerProtocolMessage, WorkerSdkError, register_worker, register_worker_accepted,
  dispatch_worker, dispatch_worker_result, done, failed, encode_worker_message,
  decode_worker_message, encode_worker_message-eq-ok, decode_worker_message-eq-ok,
}
use kunkka.CoreError.{CoreError}
use kunkka.Dispatch.{ActiveWorker, WorkerManager, DispatchResult, answered, app_error}
use kunkka.Dispatch.Send.{
  dispatch, dispatch_active, finish_dispatch, dispatch_frame, send_dispatch_frame, read_response,
  result_of, u128_mod,
}

-- The message of a worker and the result that it stands for.
pub data Carries : WorkerProtocolMessage → DispatchResult → Type 0 where
  done_answered :
      (payload : Payload) → Carries (dispatch_worker_result (done payload)) (answered payload)
  failed_app_error :
      (code message : String)
      → Carries
          (dispatch_worker_result (failed (record { code = code; message = message })))
          (app_error code message)

module _ (t : Transport) (p : Postcard WorkerProtocolMessage) where
  -- What a received frame is that yields a result.
  record Reads (request_id : ℕ) (received : Option Frame) (result : DispatchResult) : Type 0 where
    session_id : ℕ
    source : String
    target : String
    body : Payload
    metadata : Map.Map String
    is : received ≡ some (Frame.response request_id session_id source target body metadata)
    message : WorkerProtocolMessage
    decoded : decode_worker_message p body ≡ ok message
    carries : Carries message result

  result_of-Carries :
      (message : WorkerProtocolMessage) (result : DispatchResult)
      → result_of t p message ≡ ok result
      → Carries message result
  result_of-Carries (dispatch_worker_result (done payload)) result h =
      subst (Carries (dispatch_worker_result (done payload))) (cc) (done_answered payload)
  result_of-Carries (dispatch_worker_result (failed e)) result h =
      subst (Carries (dispatch_worker_result (failed e))) (cc) (failed_app_error e.code e.message)
  result_of-Carries (register_worker request) result h = cc
  result_of-Carries (register_worker_accepted response) result h = cc
  result_of-Carries (dispatch_worker request) result h = cc

  -- The frame on the wire: a request of the core to the worker.
  abbrev pub sent_frame : (request_id : ℕ) → String → Bytes → Frame
  sent_frame request_id worker_id bytes =
      Frame.request request_id 1 "core" ("worker:" <> worker_id)
        (record {
          bytes = bytes;
          content_type = some "application/vnd.kunkka.worker.v1+postcard";
          schema = some "kunkka.worker.v1";
          metadata = [];
        })
        []

  -- The frame of a dispatch, where it can be encoded.
  dispatch_frame-eq-ok :
      (app_id : AppId) (method : String) (payload : Payload) (request_id : ℕ) (worker_id : String)
      (frame : Frame)
      → dispatch_frame t p app_id method payload request_id worker_id ≡ ok frame
      → (bytes : Bytes) × (p.to_stdvec
            (dispatch_worker (record { app_id = app_id; method = method; payload = payload }))
          ≡ ok bytes)
        × (frame ≡ sent_frame request_id worker_id bytes)
  unfolding dispatch_frame
  dispatch_frame-eq-ok app_id method payload request_id worker_id frame h =
      let message =
        dispatch_worker (record { app_id = app_id; method = method; payload = payload }) in
      let (asked, encoded, same) =
        >>=-eq-ok (map_err CoreError.worker_sdk (encode_worker_message p message)) _ h in
      let (bytes, written, names) =
        encode_worker_message-eq-ok p message asked
          (map_err-eq-ok CoreError.worker_sdk (encode_worker_message p message) encoded) in
      (
        bytes,
        written,
        subst (λ a. frame ≡ Frame.request request_id 1 "core" ("worker:" <> worker_id) a []) names
            (cc),
      )

  Reads-message :
      (request_id given session_id : ℕ) (source target : String) (body : Payload)
      → (metadata : Map.Map String) (result : DispatchResult)
      → (decoded : Result WorkerSdkError WorkerProtocolMessage) → given ≡ request_id
      → decode_worker_message p body ≡ decoded
      → read_response t p request_id
          (some (Frame.response given session_id source target body metadata))
        ≡ ok result
      → Reads request_id (some (Frame.response given session_id source target body metadata)) result
  unfolding read_response
  Reads-message request_id given session_id source target body metadata result (err e) same d h =
      ground (arith, d, nat_eq_iff given request_id)
  Reads-message request_id given session_id source target body metadata result (ok message) same d
        h =
      record {
        session_id = session_id;
        source = source;
        target = target;
        body = body;
        metadata = metadata;
        is = ap (λ n. some (Frame.response n session_id source target body metadata)) same;
        message = message;
        decoded = d;
        carries = result_of-Carries message result (ground (arith, d, nat_eq_iff given request_id));
      }

  read_response-eq-ok :
      (request_id : ℕ) (received : Option Frame) (result : DispatchResult)
      → read_response t p request_id received ≡ ok result
      → Reads request_id received result
  unfolding read_response
  read_response-eq-ok request_id none result h = cc
  read_response-eq-ok request_id (some (Frame.request _ _ _ _ _ _)) result h = cc
  read_response-eq-ok request_id (some (Frame.event _ _ _ _ _ _)) result h = cc
  read_response-eq-ok request_id (some (Frame.stream _ _ _ _ _ _ _ _)) result h = cc
  read_response-eq-ok request_id (some (Frame.cancel _ _ _ _ _ _ _)) result h = cc
  read_response-eq-ok request_id (some (Frame.heartbeat _ _ _ _)) result h = cc
  read_response-eq-ok request_id (some (Frame.error _ _ _ _ _ _ _ _)) result h = cc
  read_response-eq-ok request_id
        (some (Frame.response given session_id source target body metadata)) result h =
      elim (Bool-cases (nat_eq given request_id)) [
        | inl same ↦
            Reads-message request_id given session_id source target body metadata result
              (decode_worker_message p body) ((nat_eq_iff given request_id).0 same) refl h
        | inr differs ↦ absurd (ground (arith, differs))
      ]

  exchange-eq-ok :
      (connection : t.Connection) (frame : Frame) (request_id : ℕ) (result : DispatchResult)
      → (send_dispatch_frame t p connection frame request_id).0 ≡ ok result
      → ((t.send_frame frame connection).0 ≡ ok tt)
        × ((received : Option Frame) × ((t.recv_frame (t.send_frame frame connection).1).0
              ≡ ok received)
            × Reads request_id received result)
  unfolding send_dispatch_frame
  exchange-eq-ok connection frame request_id result h =
      by_sent (t.send_frame frame connection).0 refl
    where
      by_received :
          (r : Result IpcError (Option Frame))
          → (t.send_frame frame connection).0 ≡ ok tt
          → (t.recv_frame (t.send_frame frame connection).1).0 ≡ r
          → ((t.send_frame frame connection).0 ≡ ok tt)
            × ((received : Option Frame) × ((t.recv_frame (t.send_frame frame connection).1).0
                  ≡ ok received)
                × Reads request_id received result)
      by_received (err e) s g = ground (arith, s, g)
      by_received (ok received) s g =
          (s, (received, g, read_response-eq-ok request_id received result (ground (arith, s, g))))

      by_sent :
          (r : Result IpcError (Unit {0}))
          → (t.send_frame frame connection).0 ≡ r
          → ((t.send_frame frame connection).0 ≡ ok tt)
            × ((received : Option Frame) × ((t.recv_frame (t.send_frame frame connection).1).0
                  ≡ ok received)
                × Reads request_id received result)
      by_sent (err e) s = ground (arith, s)
      by_sent (ok u) s = by_received (t.recv_frame (t.send_frame frame connection).1).0 s refl

  -- What stands behind an answer: the worker that is connected for the app was sent the request under
  -- a request id, and the frame that it sent back is a response with that id and this result.
  pub record Answers (app_id : AppId) (method : String) (payload : Payload) (m : WorkerManager t p)
      (result : DispatchResult) : Type 0 where
    pub active : ActiveWorker t p
    pub connected : Map.get app_id m.active_workers ≡ some active
    pub bytes : Bytes
    pub written :
        p.to_stdvec
          (dispatch_worker (record { app_id = app_id; method = method; payload = payload }))
        ≡ ok bytes
    pub sent :
        (t.send_frame (sent_frame m.next_request_id active.worker_id bytes) active.connection).0
        ≡ ok tt
    pub session_id : ℕ
    pub source : String
    pub target : String
    pub body : Payload
    pub metadata : Map.Map String
    pub received :
        (t.recv_frame
          (t.send_frame
            (sent_frame m.next_request_id active.worker_id bytes)
            active.connection).1).0
        ≡ ok (some (Frame.response m.next_request_id session_id source target body metadata))
    pub message : WorkerProtocolMessage
    pub decoded : p.from_bytes body.bytes ≡ ok message
    pub carries : Carries message result

  answer :
      (app_id : AppId) (method : String) (payload : Payload) (m : WorkerManager t p)
      → (result : DispatchResult) (active : ActiveWorker t p) (frame : Frame)
      → Map.get app_id m.active_workers ≡ some active
      → dispatch_frame t p app_id method payload m.next_request_id active.worker_id ≡ ok frame
      → (send_dispatch_frame t p active.connection frame m.next_request_id).0 ≡ ok result
      → Answers app_id method payload m result
  answer app_id method payload m result active frame found made h =
      let (sent, (received, got, reads)) =
        exchange-eq-ok active.connection frame m.next_request_id result h in
      let (bytes, written, same) =
        dispatch_frame-eq-ok app_id method payload m.next_request_id active.worker_id frame made in
      record {
        active = active;
        connected = found;
        bytes = bytes;
        written = written;
        sent = subst (λ f. (t.send_frame f active.connection).0 ≡ ok tt) same sent;
        session_id = reads.session_id;
        source = reads.source;
        target = reads.target;
        body = reads.body;
        metadata = reads.metadata;
        received =
            subst
              (λ f.
                (t.recv_frame (t.send_frame f active.connection).1).0
                ≡ ok (
                    some (
                      Frame.response m.next_request_id reads.session_id reads.source reads.target
                        reads.body reads.metadata)))
              same (got ∙ ap ok reads.is);
        message = reads.message;
        decoded = decode_worker_message-eq-ok p reads.body reads.message reads.decoded;
        carries = reads.carries;
      }

  finish_dispatch-result :
      (app_id : AppId) (now : ℕ) (active : ActiveWorker t p)
      → (sent : Result CoreError DispatchResult × t.Connection) (m : WorkerManager t p)
      → (finish_dispatch t p app_id now active sent m).0 ≡ sent.0
  unfolding finish_dispatch
  finish_dispatch-result app_id now active (ok result, connection) m = refl
  finish_dispatch-result app_id now active (err e, connection) m = refl

  -- A dispatch that returns a result has it from the worker. The app has a connected worker. A request
  -- frame from `core` to `worker:` and the worker's id, under the manager's next request id, that holds
  -- postcard's bytes of the app, the method and the payload and names the worker protocol, was sent on
  -- the worker's connection. The next frame of the
  -- connection is a response with this very id, and postcard reads its bytes as a message whose answer, or
  -- whose error code and text, is the result.
  pub dispatch-Answers :
      (app_id : AppId) (method : String) (payload : Payload) (now : ℕ) (m : WorkerManager t p)
      → (result : DispatchResult) → (dispatch t p app_id method payload now m).0 ≡ ok result
      → Answers app_id method payload m result
  unfolding dispatch dispatch_active
  dispatch-Answers app_id method payload now m result h = elim (Bool-cases (is_empty_text method)) [
    | inl none_given ↦ absurd (ground (arith, none_given))
    | inr given ↦ elim (Option-cases (Map.get app_id m.active_workers)) [
      | inl missing ↦ absurd (ground (arith, given, missing))
      | inr (active, found) ↦
          by_frame active found (rw (given, found, dispatch, dispatch_active) at h)
            (dispatch_frame t p app_id method payload m.next_request_id active.worker_id) refl
    ]
  ]
    where
      by_frame :
          (active : ActiveWorker t p)
          → Map.get app_id m.active_workers ≡ some active
          → (dispatch_active t p
              (some active)
              app_id
              method
              payload
              m.next_request_id
              now
              (record m { next_request_id = (m.next_request_id + 1) % u128_mod })).0
            ≡ ok result
          → (f : Result CoreError Frame)
          → dispatch_frame t p app_id method payload m.next_request_id active.worker_id ≡ f
          → Answers app_id method payload m result
      by_frame active found g (err e) made = absurd (ground (arith, made))
      by_frame active found g (ok frame) made =
          answer app_id method payload m result active frame found made (
            sym (
              finish_dispatch-result app_id now active
                (send_dispatch_frame t p active.connection frame m.next_request_id) _)
            ∙ (rw (made, dispatch_active) at g))
