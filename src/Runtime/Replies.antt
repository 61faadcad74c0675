-- ===== src/Runtime/Replies.antt =====
-- The frame that answers a frontend's frame.
use Prim.Native.String.{[] as nil, ◌∷◌ as cons}
use kunkka.Base.{
  ℕ, String, ◌≡◌, ◌≢◌, refl, inl, inr, List, [], arith, ◌==◌, Bool-cases, Option-cases,
}
use kunkka.Base.Map.{Map}
use kunkka.Base.Fallible.{Result, ok, err, ◌>>=◌}
use kunkka.Ipc.{Frame, Payload, Transport}
use kunkka.CoreError.{CoreError}
use kunkka.Protocol.{
  core_control_schema, frontend_dispatch_schema, CoreControlMessage, FrontendDispatchMessage,
}
use kunkka.Dispatch.{target_or_core}
use kunkka.Dispatch.Send.{Arrival}
use kunkka.Runtime.{Env, Core}
use kunkka.Runtime.Frames.{
  reply, frame_schema, handle_control_frame, handle_control_parts, answer_control,
  handle_frontend_dispatch_frame, handle_dispatch_parts, answer_dispatch, handle_frontend_frame,
}

module _ (t : Transport) (env : Env t) where
  -- The reply answers the frame: the frame is a request, and the reply a response to it under the same
  -- request and session ids, sent back to where the request came from, by the endpoint that the
  -- request named, or by `core` where it named none.
  pub record RepliesTo (frame answer : Frame) : Type 0 where
    pub request_id : ℕ
    pub session_id : ℕ
    pub source : String
    pub target : String
    pub asked : Payload
    pub metadata : Map String
    pub is : frame ≡ Frame.request request_id session_id source target asked metadata
    pub payload : Payload
    pub by : String
    pub named : target ≢ "" → by ≡ target
    pub unnamed : target ≡ "" → by ≡ "core"
    pub answers : answer ≡ Frame.response request_id session_id by source payload []

  target_or_core-named : (target : String) → target ≢ "" → target_or_core target ≡ target
  target_or_core-named nil given = absurd (given refl)
  target_or_core-named (cons c s) given = refl

  target_or_core-unnamed : (target : String) → target ≡ "" → target_or_core target ≡ "core"
  target_or_core-unnamed target empty = rw empty refl

  replied :
      (request_id session_id : ℕ) (source target : String) (asked : Payload) (metadata : Map String)
      → (r : Result CoreError Payload) (answer : Frame)
      → (r >>= λ payload. ok (reply t env (request_id, session_id, source, target, asked) payload))
        ≡ ok answer
      → RepliesTo (Frame.request request_id session_id source target asked metadata) answer
  replied request_id session_id source target asked metadata (err e) answer h = absurd (cc)
  replied request_id session_id source target asked metadata (ok payload) answer h = record {
    request_id = request_id;
    session_id = session_id;
    source = source;
    target = target;
    asked = asked;
    metadata = metadata;
    is = refl;
    payload = payload;
    by = target_or_core target;
    named = target_or_core-named target;
    unnamed = target_or_core-unnamed target;
    answers = cc;
  }

  control_replies :
      (request_id session_id : ℕ) (source target : String) (asked : Payload) (metadata : Map String)
      → (decoded : Result CoreError CoreControlMessage) (now : ℕ) (c : Core t env) (answer : Frame)
      → (answer_control t env now (request_id, session_id, source, target, asked) decoded c).0
        ≡ ok answer
      → RepliesTo (Frame.request request_id session_id source target asked metadata) answer
  unfolding answer_control
  control_replies request_id session_id source target asked metadata (err e) now c answer h =
      absurd (cc)
  control_replies request_id session_id source target asked metadata (ok message) now c answer h =
      replied request_id session_id source target asked metadata _ answer h

  dispatch_replies :
      (request_id session_id : ℕ) (source target : String) (asked : Payload) (metadata : Map String)
      → (decoded : Result CoreError FrontendDispatchMessage)
      → (arrivals : List (Arrival t env.worker_messages)) (now : ℕ) (c : Core t env)
        (answer : Frame)
      → (answer_dispatch t env arrivals now
          (request_id, session_id, source, target, asked)
          decoded
          c).0
        ≡ ok answer
      → RepliesTo (Frame.request request_id session_id source target asked metadata) answer
  unfolding answer_dispatch
  dispatch_replies request_id session_id source target asked metadata (err e) arrivals now c answer
        h =
      absurd (cc)
  dispatch_replies request_id session_id source target asked metadata
        (ok (FrontendDispatchMessage.dispatch_result r)) arrivals now c answer h =
      absurd (cc)
  dispatch_replies request_id session_id source target asked metadata
        (ok (FrontendDispatchMessage.dispatch request)) arrivals now c answer h =
      replied request_id session_id source target asked metadata _ answer h

  control_frame_replies :
      (frame : Frame) (now : ℕ) (c : Core t env) (answer : Frame)
      → (handle_control_frame t env now frame c).0 ≡ ok answer
      → RepliesTo frame answer
  unfolding handle_control_frame handle_control_parts
  control_frame_replies (Frame.request request_id session_id source target asked metadata) now c
        answer h =
      control_replies request_id session_id source target asked metadata _ now c answer h
  control_frame_replies (Frame.response _ _ _ _ _ _) now c answer h = absurd (cc)
  control_frame_replies (Frame.event _ _ _ _ _ _) now c answer h = absurd (cc)
  control_frame_replies (Frame.stream _ _ _ _ _ _ _ _) now c answer h = absurd (cc)
  control_frame_replies (Frame.cancel _ _ _ _ _ _ _) now c answer h = absurd (cc)
  control_frame_replies (Frame.heartbeat _ _ _ _) now c answer h = absurd (cc)
  control_frame_replies (Frame.error _ _ _ _ _ _ _ _) now c answer h = absurd (cc)

  dispatch_frame_replies :
      (frame : Frame) (arrivals : List (Arrival t env.worker_messages)) (now : ℕ) (c : Core t env)
      → (answer : Frame) → (handle_frontend_dispatch_frame t env arrivals now frame c).0 ≡ ok answer
      → RepliesTo frame answer
  unfolding handle_frontend_dispatch_frame handle_dispatch_parts
  dispatch_frame_replies (Frame.request request_id session_id source target asked metadata) arrivals
        now c answer h =
      dispatch_replies request_id session_id source target asked metadata _ arrivals now c answer h
  dispatch_frame_replies (Frame.response _ _ _ _ _ _) arrivals now c answer h = absurd (cc)
  dispatch_frame_replies (Frame.event _ _ _ _ _ _) arrivals now c answer h = absurd (cc)
  dispatch_frame_replies (Frame.stream _ _ _ _ _ _ _ _) arrivals now c answer h = absurd (cc)
  dispatch_frame_replies (Frame.cancel _ _ _ _ _ _ _) arrivals now c answer h = absurd (cc)
  dispatch_frame_replies (Frame.heartbeat _ _ _ _) arrivals now c answer h = absurd (cc)
  dispatch_frame_replies (Frame.error _ _ _ _ _ _ _ _) arrivals now c answer h = absurd (cc)

  -- The core answers a frontend only with a response to a request of it: the response has the request's
  -- own request and session ids, goes back to its source, and comes from the endpoint it was sent to, or
  -- from `core` where it named none.
  pub handle_frontend_frame-RepliesTo :
      (arrivals : List (Arrival t env.worker_messages)) (now : ℕ) (frame : Frame) (c : Core t env)
      → (answer : Frame) → (handle_frontend_frame t env arrivals now frame c).0 ≡ ok answer
      → RepliesTo frame answer
  unfolding handle_frontend_frame
  handle_frontend_frame-RepliesTo arrivals now frame c answer h =
      elim (Option-cases (frame_schema t env frame)) [
        | inl none_given ↦ absurd (ground (arith, none_given))
        | inr (schema, given) ↦ elim (Bool-cases (schema == core_control_schema)) [
          | inl control ↦ control_frame_replies frame now c answer (ground (arith, given, control))
          | inr other ↦ elim (Bool-cases (schema == frontend_dispatch_schema)) [
            | inl dispatched ↦
                dispatch_frame_replies frame arrivals now c answer
                  (ground (arith, given, other, dispatched))
            | inr unknown ↦ absurd (ground (arith, given, other, unknown))
          ]
        ]
      ]
