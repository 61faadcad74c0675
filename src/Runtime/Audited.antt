-- ===== src/Runtime/Audited.antt =====
-- What `handle_frontend_dispatch_request` does to the audit table and to the workers.
use mathlib.Core.List.{Memᴰ}
use kunkka.Base.{
  ℕ, String, ◌<>◌, ◌≡◌, refl, sym, subst, ◌⊎◌, inl, inr, true, false, Option, none, some, List, ◌∷◌,
  arith, contains, contains_iff, Bool-cases,
}
use kunkka.Base.Text.Trim.{is_empty_text, debug}
use kunkka.Base.Fallible.{Result, ok, err, Result-cases}
use kunkka.Ipc.{Transport, Payload}
use kunkka.Protocol.{FrontendDispatchRequest, FrontendDispatchResponse, platform_error, done}
use kunkka.CoreError.{CoreError, display}
use kunkka.Manifest.{AppManifest}
use kunkka.Manifest.Loading
use kunkka.Permissions.{decide_frontend_dispatch}
use kunkka.Dispatch.{DispatchResult, WorkerManager, answered}
use kunkka.Dispatch.Send.{Arrival, dispatch_with_start}
use kunkka.Runtime.{
  AuditRow, known_decision, known_reason, Env, Core, Answer, record_frontend_dispatch_audit, refuse,
  permit, decide, dispatch_platform_error_code, handle_frontend_dispatch_request, response_of,
  Written, finish_refuse, finish_permit,
}

module _ (t : Transport) (env : Env t) where
  abbrev pub row : FrontendDispatchRequest → (decision reason_code : String) → AuditRow
  row request decision reason_code = record {
    app_id = request.app_id;
    method = request.method;
    decision = decision;
    reason_code = reason_code;
  }

  -- The app has a manifest, and the manifest names the method.
  abbrev pub MayCall : Core t env → FrontendDispatchRequest → Type 0
  MayCall c request =
      (manifest : AppManifest) × (Loading.get c.manager.app_registry request.app_id ≡ some manifest)
      × Memᴰ request.method manifest.permissions.frontend_dispatch.allowed_methods

  -- Why a request may not pass, and the code that says so.
  pub data Barred (c : Core t env) (request : FrontendDispatchRequest) : String → Type 0 where
    unknown_app :
        Loading.get c.manager.app_registry request.app_id ≡ none → Barred c request "app_not_found"
    unlisted_method :
        (manifest : AppManifest)
        → Loading.get c.manager.app_registry request.app_id ≡ some manifest
        → ¬ Memᴰ request.method manifest.permissions.frontend_dispatch.allowed_methods
        → Barred c request "permission_denied"

  -- What the frontend is told of what came of asking the worker.
  pub data Tells : Result CoreError DispatchResult → FrontendDispatchResponse → Type 0 where
    answer_told : (payload : Payload) → Tells (ok (answered payload)) (done payload)
    app_error_told :
        (code message : String)
        → Tells
            (ok (DispatchResult.app_error code message))
            (FrontendDispatchResponse.app_error code message)
    failure_told : (e : CoreError) (code : String) → Tells (err e) (platform_error code (display e))

  abbrev pub dispatched :
      List (Arrival t env.worker_messages)
      → (now : ℕ) → FrontendDispatchRequest
      → Core t env
      → Result CoreError DispatchResult × WorkerManager t env.worker_messages
  dispatched arrivals now request c =
      dispatch_with_start t env.worker_messages env.os arrivals request.app_id request.method
        request.payload now c.manager

  -- The worker's answer, after the row that allows the request.
  abbrev pub forwarded :
      List (Arrival t env.worker_messages)
      → (now : ℕ) → FrontendDispatchRequest
      → Core t env
      → Answer t env
  forwarded arrivals now request c =
      let (result, manager) = dispatched arrivals now request c in
      (
        response_of t env result,
        record c { audit = row request "allow" "allowed" ∷ c.audit; manager = manager },
      )

  -- The three ways in which a request with an app and a method ends.
  pub data Ends (arrivals : List (Arrival t env.worker_messages)) (now : ℕ)
      (request : FrontendDispatchRequest) (c : Core t env) : Answer t env → Type 0 where
    -- The request may not pass, and the row that says why cannot be written: nothing else happens,
    -- and the frontend is told so.
    refusal_unaudited :
        (code e : String)
        → Barred c request code
        → env.insert c.audit (row request "deny" code) ≡ err e
        → Ends arrivals now request c (platform_error "core_error" "audit write failed", c)
    -- The request may pass, and the row that says so cannot be written: the same.
    pass_unaudited :
        (e : String)
        → MayCall c request
        → env.insert c.audit (row request "allow" "allowed") ≡ err e
        → Ends arrivals now request c (platform_error "core_error" "audit write failed", c)
    -- The request may not pass: a row says why, the frontend is told the same code, and no worker is
    -- touched.
    refused :
        (code message : String)
        → Barred c request code
        → env.insert c.audit (row request "deny" code) ≡ ok tt
        → Ends arrivals now request c
            (platform_error code message, record c { audit = row request "deny" code ∷ c.audit })
    -- The request may pass: a row says so before the worker is asked.
    passed :
        MayCall c request
        → env.insert c.audit (row request "allow" "allowed") ≡ ok tt
        → Tells (dispatched arrivals now request c).0 (forwarded arrivals now request c).0
        → Ends arrivals now request c (forwarded arrivals now request c)

  response_of-Tells : (r : Result CoreError DispatchResult) → Tells r (response_of t env r)
  unfolding response_of
  response_of-Tells (ok (answered payload)) = answer_told payload
  response_of-Tells (ok (DispatchResult.app_error code message)) = app_error_told code message
  response_of-Tells (err e) = failure_told e (dispatch_platform_error_code t env e)

  -- A request that is barred may not pass.
  Barred-not-MayCall :
      (c : Core t env) (request : FrontendDispatchRequest) (code : String)
      → Barred c request code
      → ¬ MayCall c request
  Barred-not-MayCall c request code (unknown_app missing) (manifest, known, listed) = cc
  Barred-not-MayCall c request code (unlisted_method manifest found unlisted)
        (other, known, listed) =
      let same : other ≡ manifest = cc in
      unlisted (
        subst
          (λ (m : AppManifest). Memᴰ request.method m.permissions.frontend_dispatch.allowed_methods)
          same listed)

  -- A row with a decision and a reason of the known ones is written, or nothing is.
  audit-cases :
      (request : FrontendDispatchRequest) (decision reason_code : String) (rows : List AuditRow)
      → known_decision t env decision ≡ true
      → known_reason t env reason_code ≡ true
      → ((e : CoreError) × (text : String) × (env.insert rows (row request decision reason_code)
            ≡ err text)
          × (record_frontend_dispatch_audit t env request.app_id request.method decision reason_code
                rows
              ≡ (err e, rows)))
        ⊎ ((env.insert rows (row request decision reason_code) ≡ ok tt)
            × (record_frontend_dispatch_audit t env request.app_id request.method decision
                  reason_code rows
                ≡ (ok tt, row request decision reason_code ∷ rows)))
  unfolding record_frontend_dispatch_audit
  audit-cases request decision reason_code rows known reason =
      elim (Result-cases (env.insert rows (row request decision reason_code))) [
        | inl (e, bad) ↦ inl (
          CoreError.database ("failed to insert frontend dispatch audit: " <> e),
          e,
          bad,
          rw (known, reason, bad) refl,
        )
        | inr (u, good) ↦ inr (good, rw (known, reason, good) refl)
      ]

  refuse-Ends :
      (arrivals : List (Arrival t env.worker_messages)) (now : ℕ)
      (request : FrontendDispatchRequest)
      → (code message : String) (c : Core t env) → known_reason t env code ≡ true
      → Barred c request code
      → Ends arrivals now request c (refuse t env code message request c)
  unfolding refuse
  refuse-Ends arrivals now request code message c reason barred =
      let ends : Written t env → Type 0 =
        λ w. Ends arrivals now request c (finish_refuse t env code message w c) in
      elim (audit-cases request "deny" code c.audit refl reason) [
        | inl (e, text, failed, bad) ↦
            subst ends (sym bad) (Ends.refusal_unaudited code text barred failed)
        | inr (written, good) ↦ subst ends (sym good) (Ends.refused code message barred written)
      ]

  permit-Ends :
      (arrivals : List (Arrival t env.worker_messages)) (now : ℕ)
      (request : FrontendDispatchRequest)
      → (c : Core t env) → MayCall c request
      → Ends arrivals now request c (permit t env arrivals now request c)
  unfolding permit
  permit-Ends arrivals now request c may =
      let ends : Written t env → Type 0 =
        λ w. Ends arrivals now request c (finish_permit t env arrivals now request w c) in
      elim (audit-cases request "allow" "allowed" c.audit refl refl) [
        | inl (e, text, failed, bad) ↦ subst ends (sym bad) (Ends.pass_unaudited text may failed)
        | inr (written, good) ↦
            subst ends (sym good)
              (Ends.passed may written (response_of-Tells (dispatched arrivals now request c).0))
      ]

  decide-Ends :
      (found : Option AppManifest) (arrivals : List (Arrival t env.worker_messages)) (now : ℕ)
      → (request : FrontendDispatchRequest) (c : Core t env)
      → Loading.get c.manager.app_registry request.app_id ≡ found
      → Ends arrivals now request c (decide t env found arrivals now request c)
  unfolding decide decide_frontend_dispatch
  decide-Ends none arrivals now request c h =
      refuse-Ends arrivals now request "app_not_found" ("app not found: " <> request.app_id) c refl
        (unknown_app h)
  decide-Ends (some manifest) arrivals now request c h =
      let methods = manifest.permissions.frontend_dispatch.allowed_methods in
      elim (Bool-cases (contains methods request.method)) [
        | inl listed ↦
            rw (listed, decide, decide_frontend_dispatch)
              (permit-Ends arrivals now request c
                (manifest, h, (contains_iff methods request.method).0 listed))
        | inr unlisted ↦
            rw (unlisted, decide, decide_frontend_dispatch)
              (refuse-Ends arrivals now request "permission_denied"
                ("frontend dispatch method "
                  <> debug request.method
                  <> " is not allowed for app "
                  <> debug manifest.app_id)
                c refl
                (unlisted_method manifest h
                  (λ member. ground (arith, unlisted, contains_iff methods request.method))))
      ]

  -- What a frontend's request that names an app and a method comes to. Where the app's manifest names
  -- the method, and the database takes an `allow` row, the row is written, the worker is asked, and the
  -- frontend is told the worker's payload, its error, or the text of what failed. Where the app has no
  -- manifest (`app_not_found`) or its manifest does not name the method (`permission_denied`), and the
  -- database takes a `deny` row with this code, the row is written, the frontend is told the code and no
  -- worker is touched. Where the database refuses the row of the two that is due, the frontend is told
  -- that the audit failed, and nothing else happens.
  pub handle_frontend_dispatch_request-Ends :
      (arrivals : List (Arrival t env.worker_messages)) (now : ℕ)
      (request : FrontendDispatchRequest)
      → (c : Core t env) → is_empty_text request.app_id ≡ false
      → is_empty_text request.method ≡ false
      → Ends arrivals now request c (handle_frontend_dispatch_request t env arrivals now request c)
  unfolding handle_frontend_dispatch_request
  handle_frontend_dispatch_request-Ends arrivals now request c app method =
      rw (app, method)
        (decide-Ends (Loading.get c.manager.app_registry request.app_id) arrivals now request c
          refl)
