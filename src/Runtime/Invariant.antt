-- ===== src/Runtime/Invariant.antt =====
-- What every frame of a frontend leaves in order: the workers and the approvals.
use kunkka.Base.{
  ℕ, String, ◌<>◌, ◌≡◌, refl, inl, inr, Option, none, some, List, ◌==◌, Option-cases, Bool-cases,
}
use kunkka.Base.Text.Trim.{is_empty_text}
use kunkka.Base.Fallible.{Result, ok, err, Result-cases}
use kunkka.Ipc.{Frame, Payload, Transport}
use kunkka.CoreError.{CoreError}
use kunkka.Protocol.{
  CoreControlMessage, FrontendDispatchMessage, FrontendDispatchRequest, ping, pong, status,
  status_result, list_pending_approvals, pending_approvals_result, approve_pending_approval,
  reject_pending_approval, approval_decision_result, get_theme, get_theme_result, set_theme,
  set_theme_result, theme_changed, core_control_schema, frontend_dispatch_schema,
}
use kunkka.Approval.{approve, reject, approved, rejected}
use kunkka.Approval.Invariant
use kunkka.Approval.Invariant.{settle-IsValid, list_pending-IsValid}
use kunkka.Manifest.{AppManifest}
use kunkka.Manifest.Loading
use kunkka.Permissions.{PermissionDecision, decide_frontend_dispatch}
use kunkka.Dispatch.Consistent.{IsConsistent}
use kunkka.Dispatch.Started.{dispatch_with_start-IsConsistent}
use kunkka.Dispatch.Send.{Arrival}
use kunkka.Theme.{switch_flavor}
use kunkka.Runtime.{
  Env, Core, Written, finish_refuse, finish_permit, refuse, permit, decide,
  handle_frontend_dispatch_request, record_frontend_dispatch_audit,
}
use kunkka.Runtime.Frames.{
  frame_schema, parts_of, decode_control, decode_dispatch, handle_control_message,
  handle_control_frame, handle_control_parts, answer_control, handle_frontend_dispatch_frame,
  handle_dispatch_parts, answer_dispatch, handle_frontend_frame,
}

module _ (t : Transport) (env : Env t) where
  -- The connections and the registry agree, and the approval store is valid.
  pub record IsValid (c : Core t env) : Type 0 where
    pub workers : IsConsistent c.manager
    pub approvals : Invariant.IsValid c.approvals

  finish_refuse-IsValid :
      (code message : String) (w : Written t env) (c : Core t env)
      → IsValid c
      → IsValid (finish_refuse t env code message w c).1
  finish_refuse-IsValid code message (err e, rows) c v = record {
    workers = v.workers;
    approvals = v.approvals;
  }
  finish_refuse-IsValid code message (ok u, rows) c v = record {
    workers = v.workers;
    approvals = v.approvals;
  }

  refuse-IsValid :
      (code message : String) (request : FrontendDispatchRequest) (c : Core t env)
      → IsValid c
      → IsValid (refuse t env code message request c).1
  unfolding refuse
  refuse-IsValid code message request c v =
      finish_refuse-IsValid code message
        (record_frontend_dispatch_audit t env request.app_id request.method "deny" code c.audit) c v

  finish_permit-IsValid :
      (arrivals : List (Arrival t env.worker_messages)) (now : ℕ)
      (request : FrontendDispatchRequest)
      → (w : Written t env) (c : Core t env) → IsValid c
      → IsValid (finish_permit t env arrivals now request w c).1
  finish_permit-IsValid arrivals now request (err e, rows) c v = record {
    workers = v.workers;
    approvals = v.approvals;
  }
  finish_permit-IsValid arrivals now request (ok u, rows) c v = record {
    workers =
        dispatch_with_start-IsConsistent env.os arrivals request.app_id request.method
          request.payload now c.manager v.workers;
    approvals = v.approvals;
  }

  permit-IsValid :
      (arrivals : List (Arrival t env.worker_messages)) (now : ℕ)
      (request : FrontendDispatchRequest)
      → (c : Core t env) → IsValid c
      → IsValid (permit t env arrivals now request c).1
  unfolding permit
  permit-IsValid arrivals now request c v =
      finish_permit-IsValid arrivals now request
        (record_frontend_dispatch_audit t env request.app_id request.method "allow" "allowed"
          c.audit)
        c v

  decide-IsValid :
      (found : Option AppManifest) (arrivals : List (Arrival t env.worker_messages)) (now : ℕ)
      → (request : FrontendDispatchRequest) (c : Core t env) → IsValid c
      → IsValid (decide t env found arrivals now request c).1
  unfolding decide
  decide-IsValid none arrivals now request c v =
      refuse-IsValid "app_not_found" ("app not found: " <> request.app_id) request c v
  decide-IsValid (some manifest) arrivals now request c v =
      decided (decide_frontend_dispatch manifest request.method) refl
    where
      decided :
          (d : PermissionDecision)
          → decide_frontend_dispatch manifest request.method ≡ d
          → IsValid (decide t env (some manifest) arrivals now request c).1
      decided (PermissionDecision.deny code message) h =
          rw (h, decide) (refuse-IsValid code message request c v)
      decided PermissionDecision.allow h = rw (h, decide) (permit-IsValid arrivals now request c v)

  request-IsValid :
      (arrivals : List (Arrival t env.worker_messages)) (now : ℕ)
      (request : FrontendDispatchRequest)
      → (c : Core t env) → IsValid c
      → IsValid (handle_frontend_dispatch_request t env arrivals now request c).1
  unfolding handle_frontend_dispatch_request
  request-IsValid arrivals now request c v = elim (Bool-cases (is_empty_text request.app_id)) [
    | inl no_app ↦ rw (no_app, handle_frontend_dispatch_request) v
    | inr app ↦ elim (Bool-cases (is_empty_text request.method)) [
      | inl no_method ↦ rw (app, no_method, handle_frontend_dispatch_request) v
      | inr method ↦
          rw (app, method, handle_frontend_dispatch_request)
            (decide-IsValid (Loading.get c.manager.app_registry request.app_id) arrivals now request
              c v)
    ]
  ]

  control-IsValid :
      (now : ℕ) (message : CoreControlMessage) (c : Core t env)
      → IsValid c
      → IsValid (handle_control_message t env now message c).1
  unfolding handle_control_message approve reject switch_flavor
  control-IsValid now ping c v = v
  control-IsValid now pong c v = v
  control-IsValid now status c v = v
  control-IsValid now list_pending_approvals c v = record {
    workers = v.workers;
    approvals = list_pending-IsValid now c.approvals v.approvals;
  }
  control-IsValid now approval_decision_result c v = v
  control-IsValid now get_theme c v = v
  control-IsValid now set_theme_result c v = v
  control-IsValid now (status_result r) c v = v
  control-IsValid now (pending_approvals_result r) c v = v
  control-IsValid now (approve_pending_approval id) c v = record {
    workers = v.workers;
    approvals = settle-IsValid approved id now c.approvals v.approvals;
  }
  control-IsValid now (reject_pending_approval id) c v = record {
    workers = v.workers;
    approvals = settle-IsValid rejected id now c.approvals v.approvals;
  }
  control-IsValid now (get_theme_result f) c v = v
  control-IsValid now (theme_changed f) c v = v
  control-IsValid now (set_theme flavor) c v =
      elim (Result-cases (env.save_theme (record c.theme { active_flavor = flavor }))) [
        | inl (e, bad) ↦
            rw (bad, handle_control_message)
              (record { workers = v.workers; approvals = v.approvals })
        | inr (u, good) ↦
            rw (good, handle_control_message)
              (record { workers = v.workers; approvals = v.approvals })
      ]

  answer_control-IsValid :
      (now : ℕ) (parts : ℕ × ℕ × String × String × Payload)
      (decoded : Result CoreError CoreControlMessage)
      → (c : Core t env) → IsValid c
      → IsValid (answer_control t env now parts decoded c).1
  unfolding answer_control
  answer_control-IsValid now parts (err e) c v = v
  answer_control-IsValid now parts (ok message) c v = control-IsValid now message c v

  control_parts-IsValid :
      (now : ℕ) (r : Result CoreError (ℕ × ℕ × String × String × Payload)) (c : Core t env)
      → IsValid c
      → IsValid (handle_control_parts t env now r c).1
  unfolding handle_control_parts
  control_parts-IsValid now (err e) c v = v
  control_parts-IsValid now (ok (a, b, s, g, payload)) c v =
      answer_control-IsValid now (a, b, s, g, payload) (decode_control t env payload) c v

  answer_dispatch-IsValid :
      (arrivals : List (Arrival t env.worker_messages)) (now : ℕ)
      → (parts : ℕ × ℕ × String × String × Payload)
      → (decoded : Result CoreError FrontendDispatchMessage) (c : Core t env) → IsValid c
      → IsValid (answer_dispatch t env arrivals now parts decoded c).1
  unfolding answer_dispatch
  answer_dispatch-IsValid arrivals now parts (err e) c v = v
  answer_dispatch-IsValid arrivals now parts (ok (FrontendDispatchMessage.dispatch_result r)) c v =
      v
  answer_dispatch-IsValid arrivals now parts (ok (FrontendDispatchMessage.dispatch request)) c v =
      request-IsValid arrivals now request c v

  dispatch_parts-IsValid :
      (arrivals : List (Arrival t env.worker_messages)) (now : ℕ)
      → (r : Result CoreError (ℕ × ℕ × String × String × Payload)) (c : Core t env) → IsValid c
      → IsValid (handle_dispatch_parts t env arrivals now r c).1
  unfolding handle_dispatch_parts
  dispatch_parts-IsValid arrivals now (err e) c v = v
  dispatch_parts-IsValid arrivals now (ok (a, b, s, g, payload)) c v =
      answer_dispatch-IsValid arrivals now (a, b, s, g, payload) (decode_dispatch t env payload) c v

  -- Where the workers' connections and registry are in step and the approval store is valid, every frame
  -- of a frontend, well formed or not, leaves them so.
  pub handle_frontend_frame-IsValid :
      (arrivals : List (Arrival t env.worker_messages)) (now : ℕ) (frame : Frame) (c : Core t env)
      → IsValid c
      → IsValid (handle_frontend_frame t env arrivals now frame c).1
  unfolding handle_frontend_frame handle_control_frame handle_frontend_dispatch_frame
  handle_frontend_frame-IsValid arrivals now frame c v =
      elim (Option-cases (frame_schema t env frame)) [
        | inl none_given ↦ rw (none_given, handle_frontend_frame) v
        | inr (schema, given) ↦ elim (Bool-cases (schema == core_control_schema)) [
          | inl control ↦
              rw (given, handle_frontend_frame, control)
                (control_parts-IsValid now (parts_of t env frame) c v)
          | inr other ↦ elim (Bool-cases (schema == frontend_dispatch_schema)) [
            | inl dispatched ↦
                rw (given, handle_frontend_frame, other, dispatched)
                  (dispatch_parts-IsValid arrivals now (parts_of t env frame) c v)
            | inr unknown ↦ rw (given, handle_frontend_frame, other, unknown) v
          ]
        ]
      ]
