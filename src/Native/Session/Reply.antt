-- ===== src/Native/Session/Reply.antt =====
-- Every request gets one response, which names it and fits it.
use kunkka.Base.{ℕ, String, Bool, true, false, none, some, List, ◌≡◌, refl, subst, inl, inr}
use kunkka.Base.Fallible.{Result, ok, err, >>=-eq-ok, Result-cases}
use kunkka.Protocol.{CoreControlMessage, FrontendDispatchResponse}
use kunkka.Native.{
  NativeHostError, NativePendingApproval, NativeCommand, NativeRequest, NativeResult,
  NativeResponse, success_response, error_response,
}
use kunkka.Native.Bridge.{
  Core, NativeHostSession, With, core_message_for_command, native_result_for_core_response,
  native_result_for_frontend_dispatch_response, native_value_for_json_payload, respond_with,
  finish_control, finish_dispatch, send_core_control, send_frontend_dispatch,
  frontend_dispatch_request_for_command, handle_control, handle_dispatch, handle_request,
}

-- The results that a command may get.
pub data Answers {V : Type 0} : NativeCommand V → NativeResult V → Type 0 where
  ping_pong : Answers NativeCommand.ping NativeResult.pong
  status_status :
      (workers : ℕ) (path : String) (ready : Bool)
      → Answers NativeCommand.status (NativeResult.status workers path ready)
  list_pending :
      (approvals : List NativePendingApproval)
      → Answers NativeCommand.approvals_list (NativeResult.pending_approvals approvals)
  approved :
      (approval_id : String)
      → Answers (NativeCommand.approval_approve approval_id) NativeResult.approval_decision
  rejected :
      (approval_id : String)
      → Answers (NativeCommand.approval_reject approval_id) NativeResult.approval_decision
  dispatched :
      (app_id method : String) (payload value : V)
      → Answers (NativeCommand.dispatch app_id method payload) (NativeResult.dispatch value)
  app_failed :
      (app_id method : String) (payload : V) (code message : String)
      → Answers
          (NativeCommand.dispatch app_id method payload)
          (NativeResult.dispatch_error code message)

-- A response that names a request: a result that fits the command and no error, or an error and no
-- result.
pub data Reply {V : Type 0} (id : String) (command : NativeCommand V)
    : NativeResponse V → Type 0 where
  success :
      (result : NativeResult V)
      → Answers command result
      → Reply id command (record { id = some id; ok = true; result = some result; error = none })
  failure :
      (code message : String)
      → Reply id command (record {
        id = some id;
        ok = false;
        result = none;
        error = some (record { code = code; message = message });
      })

module _ {V : Type 0} (c : Core V) where
  respond_with-Reply :
      (id : String) (command : NativeCommand V) (answer : Result NativeHostError (NativeResult V))
      → ((result : NativeResult V) → answer ≡ ok result → Answers command result)
      → Reply id command (respond_with c id answer)
  unfolding respond_with success_response error_response
  respond_with-Reply id command (ok result) fits = success result (fits result refl)
  respond_with-Reply id command (err e) fits = failure _ _

  ok_eq :
      {r q : NativeResult V} → Path (Result NativeHostError (NativeResult V)) (ok r) (ok q) → r ≡ q
  ok_eq h = cc

  result-Answers :
      (command : NativeCommand V) (message : CoreControlMessage) (result : NativeResult V)
      → native_result_for_core_response c command message ≡ ok result
      → Answers command result
  unfolding native_result_for_core_response
  result-Answers NativeCommand.ping message result =
      elim message
        as (λ m.
          native_result_for_core_response c NativeCommand.ping m ≡ ok result
          → Answers NativeCommand.ping result) [
            | CoreControlMessage.pong ↦
                λ h. subst (Answers NativeCommand.ping) (ok_eq h) (ping_pong)
            | other ↦ λ h. cc
          ]
  result-Answers NativeCommand.status message result =
      elim message
        as (λ m.
          native_result_for_core_response c NativeCommand.status m ≡ ok result
          → Answers NativeCommand.status result) [
            | CoreControlMessage.status_result st ↦
                λ h. subst (Answers NativeCommand.status) (ok_eq h) (status_status _ _ _)
            | other ↦ λ h. cc
          ]
  result-Answers NativeCommand.approvals_list message result =
      elim message
        as (λ m.
          native_result_for_core_response c NativeCommand.approvals_list m ≡ ok result
          → Answers NativeCommand.approvals_list result) [
            | CoreControlMessage.pending_approvals_result approvals ↦
                λ h. subst (Answers NativeCommand.approvals_list) (ok_eq h) (list_pending _)
            | other ↦ λ h. cc
          ]
  result-Answers (NativeCommand.approval_approve approval_id) message result =
      elim message
        as (λ m.
          native_result_for_core_response c (NativeCommand.approval_approve approval_id) m
            ≡ ok result
          → Answers (NativeCommand.approval_approve approval_id) result) [
            | CoreControlMessage.approval_decision_result ↦ λ h.
                subst (Answers (NativeCommand.approval_approve approval_id)) (ok_eq h)
                  (approved approval_id)
            | other ↦ λ h. cc
          ]
  result-Answers (NativeCommand.approval_reject approval_id) message result =
      elim message
        as (λ m.
          native_result_for_core_response c (NativeCommand.approval_reject approval_id) m
            ≡ ok result
          → Answers (NativeCommand.approval_reject approval_id) result) [
            | CoreControlMessage.approval_decision_result ↦ λ h.
                subst (Answers (NativeCommand.approval_reject approval_id)) (ok_eq h)
                  (rejected approval_id)
            | other ↦ λ h. cc
          ]
  result-Answers (NativeCommand.dispatch app_id method payload) message result = λ h. cc

  finish_control-Reply :
      (id : String) (command : NativeCommand V) (sent : With c CoreControlMessage)
      → Reply id command ((finish_control c id command sent).0)
  unfolding error_response respond_with
  finish_control-Reply id command (ok message, s) =
      respond_with-Reply id command (native_result_for_core_response c command message)
        (result-Answers command message)
  finish_control-Reply id command (err e, s) = failure _ _

  handle_control-Reply :
      (id : String) (command : NativeCommand V) (s : NativeHostSession c)
      → Reply id command ((handle_control c id command s).0)
  unfolding handle_control error_response
  handle_control-Reply id command s = elim (Result-cases (core_message_for_command command)) [
    | inl (e, h) ↦ rw (h, handle_control) (failure _ _)
    | inr (message, h) ↦
        rw (h, handle_control) (finish_control-Reply id command (send_core_control c message s))
  ]

  dispatch-Answers :
      (app_id method : String) (payload : V) (response : FrontendDispatchResponse)
      (result : NativeResult V)
      → native_result_for_frontend_dispatch_response c response ≡ ok result
      → Answers (NativeCommand.dispatch app_id method payload) result
  unfolding native_result_for_frontend_dispatch_response
  dispatch-Answers app_id method payload (FrontendDispatchResponse.done encoded) result h =
      let (value, decoded, same) =
        >>=-eq-ok (native_value_for_json_payload c encoded)
          (λ value. ok (NativeResult.dispatch value)) h in
      subst (Answers (NativeCommand.dispatch app_id method payload)) (ok_eq same)
        (dispatched app_id method payload value)
  dispatch-Answers app_id method payload (FrontendDispatchResponse.app_error code message) result
        h =
      subst (Answers (NativeCommand.dispatch app_id method payload)) (ok_eq h)
        (app_failed app_id method payload code message)
  dispatch-Answers app_id method payload (FrontendDispatchResponse.platform_error code message)
        result h =
      cc

  finish_dispatch-Reply :
      (id app_id method : String) (payload : V) (sent : With c FrontendDispatchResponse)
      → Reply id (NativeCommand.dispatch app_id method payload) ((finish_dispatch c id sent).0)
  unfolding error_response
  finish_dispatch-Reply id app_id method payload (err e, s) = failure _ _
  finish_dispatch-Reply id app_id method payload
        (ok (FrontendDispatchResponse.platform_error code message), s) =
      failure code message
  finish_dispatch-Reply id app_id method payload
        (ok (FrontendDispatchResponse.app_error code message), s) =
      respond_with-Reply id _ _
        (dispatch-Answers app_id method payload (FrontendDispatchResponse.app_error code message))
  finish_dispatch-Reply id app_id method payload (ok (FrontendDispatchResponse.done encoded), s) =
      respond_with-Reply id _ _
        (dispatch-Answers app_id method payload (FrontendDispatchResponse.done encoded))

  handle_dispatch-Reply :
      (id app_id method : String) (payload : V) (s : NativeHostSession c)
      → Reply id
          (NativeCommand.dispatch app_id method payload)
          ((handle_dispatch c id (NativeCommand.dispatch app_id method payload) s).0)
  unfolding handle_dispatch error_response
  handle_dispatch-Reply id app_id method payload s =
      elim (Result-cases
        (frontend_dispatch_request_for_command c (NativeCommand.dispatch app_id method payload))) [
          | inl (e, h) ↦ rw (h, handle_dispatch) (failure _ _)
          | inr (request, h) ↦
              rw (h, handle_dispatch)
                (finish_dispatch-Reply id app_id method payload
                  (send_frontend_dispatch c request s))
        ]

  handle-Reply :
      (id : String) (command : NativeCommand V) (s : NativeHostSession c)
      → Reply id command ((handle_request c (record { id = id; command = command }) s).0)
  unfolding handle_request
  handle-Reply id (NativeCommand.dispatch app_id method payload) s =
      handle_dispatch-Reply id app_id method payload s
  handle-Reply id NativeCommand.ping s = handle_control-Reply id NativeCommand.ping s
  handle-Reply id NativeCommand.status s = handle_control-Reply id NativeCommand.status s
  handle-Reply id NativeCommand.approvals_list s =
      handle_control-Reply id NativeCommand.approvals_list s
  handle-Reply id (NativeCommand.approval_approve approval_id) s =
      handle_control-Reply id (NativeCommand.approval_approve approval_id) s
  handle-Reply id (NativeCommand.approval_reject approval_id) s =
      handle_control-Reply id (NativeCommand.approval_reject approval_id) s

  -- Whatever the core answers, the response to a request carries the request's id, and either a result of the kind that the command asks for and no error, or an error and no result.
  pub handle_request-Reply :
      (request : NativeRequest V) (s : NativeHostSession c)
      → Reply request.id request.command ((handle_request c request s).0)
  handle_request-Reply request s = handle-Reply request.id request.command s
