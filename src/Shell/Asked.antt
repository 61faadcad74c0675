-- ===== src/Shell/Asked.antt =====
-- The way of a command that needs an approval: asked for, approved, and then run.
use mathlib.Core.List.{Memᴰ}
use kunkka.Base.{
  ℕ, ◌+◌, ◌<◌, String, ◌≡◌, refl, sym, subst, ap, ◌∙◌, inr, none, some, List, map, ◌∷◌, arith,
  eq_refl,
}
use kunkka.Base.Fallible.{ok}
use kunkka.Base.Map
use kunkka.Ipc.{Bytes}
use kunkka.Manifest.{AppManifest}
use kunkka.Approval.{
  ApprovalStore, ApprovalRecord, create, approve, approved, pending, set_state, expire_entry,
  list_pending, reap_expired, pending_item, approval_ttl, u64_mod,
}
use kunkka.Approval.Entries.{get-create, get-settle, get-reap_expired}
use kunkka.Approval.Invariant.{IsValid, create-IsValid, list_pending-IsValid}
use kunkka.Approval.Listing.{IsWaiting, expire_entry_waiting, list_pending-mem_iff}
use kunkka.Approval.Consume.{GrantedIn}
use kunkka.Permissions.{ShellPolicyDecision, decide_shell_policy}
use kunkka.Shell.Pipeline.{ParsedStage}
use kunkka.Shell.{
  ShellRunParams, ShellHost, ShellState, handle_shell_request, read_request, run_parsed,
  run_decided,
}
use kunkka.Shell.Permitted.{handle_shell_request-eq_run_parsed, Permitted-runs}

-- The entry that asking leaves.
abbrev asked_entry :
    (id app_id capability command : String) → List String → (now : ℕ) → ApprovalRecord
asked_entry id app_id capability command commands now = record {
  approval_id = id;
  app_id = app_id;
  capability = capability;
  command = command;
  commands = commands;
  state = pending;
  created_at = now;
}

-- A listing keeps an entry that is waiting.
get-list_pending-waiting :
    (id : String) (later : ℕ) (t : ApprovalStore) (e : ApprovalRecord)
    → IsValid t
    → Map.get id t.entries ≡ some e
    → IsWaiting later e
    → Map.get id (list_pending later t).1.entries ≡ some e
unfolding list_pending reap_expired
get-list_pending-waiting id later t e v found w =
    get-reap_expired t v.sorted id later ∙ rw (found, expire_entry_waiting later e w, w.waits) refl

waiting-approve-GrantedIn :
    (id : String) (later : ℕ) (t : ApprovalStore) (e : ApprovalRecord)
    → IsValid t
    → Map.get id t.entries ≡ some e
    → GrantedIn (approve id later t) id e.app_id e.capability e.command
unfolding approve
waiting-approve-GrantedIn id later t e v found = (
  set_state approved (expire_entry later e),
  get-settle t v.sorted approved id id later ∙ rw (found, eq_refl id) refl,
  record { state = refl; app = ground arith; cap = ground arith; cmd = ground arith },
)

-- What was asked for is shown to the user before its time is over, and what the user then approves is
-- granted.
create-list-approve :
    (app_id capability command : String) (commands : List String) (now later : ℕ)
    (s : ApprovalStore)
    → IsValid s
    → s.next_id + 1 < u64_mod
    → later < now + approval_ttl
    → let (id, t) = create app_id capability command commands now s in
      Memᴰ
        (record { approval_id = id; app_id = app_id; capability = capability; summary = command })
        (list_pending later t).0
      × GrantedIn (approve id later (list_pending later t).1) id app_id capability command
create-list-approve app_id capability command commands now later s v room soon =
    let (id, t) = create app_id capability command commands now s in
    let e = asked_entry id app_id capability command commands now in
    let found : Map.get id t.entries ≡ some e =
      get-create s id app_id capability command commands now ∙ rw (eq_refl id) refl in
    let valid = create-IsValid app_id capability command commands now s v room in
    let waits : IsWaiting later e = record { waits = refl; fresh = soon } in
    (
      (list_pending-mem_iff later t (pending_item e) valid).1 (id, e, found, waits, refl),
      waiting-approve-GrantedIn id later (list_pending later t).1 e
          (list_pending-IsValid later t valid)
          (get-list_pending-waiting id later t e valid found waits),
    )

module _ (host : ShellHost) where
  asked_state :
      (manifest : AppManifest) (params : ShellRunParams) (stages : List ParsedStage) (now : ℕ)
      → (st : ShellState) → params.approval_id ≡ none
      → decide_shell_policy manifest (map (λ stage. stage.command) stages) ≡ ShellPolicyDecision.ask
      → (run_parsed host manifest params stages now st).1 ≡ record st {
        approvals =
            (create manifest.app_id "shell" params.command
              (map (λ stage. stage.command) stages)
              now
              st.approvals).1;
      }
  unfolding run_parsed run_decided
  asked_state manifest params stages now st missing asks = rw (missing, asks, run_decided) refl

  -- A command that the manifest asks about runs once the user approves it in time. From a valid store
  -- that can still hand out ids, let a request without an approval meet a policy that says to ask. It
  -- hands nothing to the shell, and a listing within 60 seconds of it shows the user an approval with
  -- the app, the capability and the command line, under the id that was handed out. Let the user approve
  -- this id then. A request with this id and the same command line, at any time after, hands the command
  -- line to the shell.
  pub asked_approved_runs :
      (manifest : AppManifest) (method : String) (first again : Bytes) (now later last : ℕ)
      → (st : ShellState) (params retry : ShellRunParams) (stages parsed : List ParsedStage)
      → read_request host method first ≡ ok (params, stages)
      → params.approval_id ≡ none
      → decide_shell_policy manifest (map (λ stage. stage.command) stages) ≡ ShellPolicyDecision.ask
      → read_request host method again ≡ ok (retry, parsed)
      → retry.command ≡ params.command
      → IsValid st.approvals
      → st.approvals.next_id + 1 < u64_mod
      → later < now + approval_ttl
      → retry.approval_id
        ≡ some
            (create manifest.app_id "shell" params.command
              (map (λ stage. stage.command) stages)
              now
              st.approvals).0
      → let id =
          (create manifest.app_id "shell" params.command
            (map (λ stage. stage.command) stages)
            now
            st.approvals).0 in
        let asked = (handle_shell_request host manifest method first now st).1 in
        let (shown, listed) = list_pending later asked.approvals in
        let agreed = record asked { approvals = approve id later listed } in
        (asked.ran ≡ st.ran)
        × Memᴰ
            (record {
              approval_id = id;
              app_id = manifest.app_id;
              capability = "shell";
              summary = params.command;
            })
            shown
        × ((handle_shell_request host manifest method again last agreed).1.ran
            ≡ params.command ∷ st.ran)
  asked_approved_runs manifest method first again now later last st params retry stages parsed read₁
        missing asks read₂ same v room soon given =
      let commands = map (λ stage. stage.command) stages in
      let (id, created) = create manifest.app_id "shell" params.command commands now st.approvals in
      let waiting : ShellState = record st { approvals = created } in
      let agreed : ShellState = record st {
        approvals = approve id later (list_pending later created).1;
      } in
      let reached : (handle_shell_request host manifest method first now st).1 ≡ waiting =
        ap (λ a. a.1)
          (handle_shell_request-eq_run_parsed host manifest method first now st params stages read₁)
        ∙ asked_state manifest params stages now st missing asks in
      let (shown, granted) =
        create-list-approve manifest.app_id "shell" params.command commands now later st.approvals v
          room soon in
      let runs : (handle_shell_request host manifest method again last agreed).1.ran
          ≡ params.command ∷ st.ran =
        ap (λ a. a.1.ran)
          (handle_shell_request-eq_run_parsed host manifest method again last agreed retry parsed
            read₂)
        ∙ Permitted-runs host manifest retry parsed last agreed (inr (id, given, rw same granted))
        ∙ ap (λ c. c ∷ st.ran) same in
      (
        ap (λ x. x.ran) reached,
        subst
            (λ x.
              Memᴰ
                (record {
                  approval_id = id;
                  app_id = manifest.app_id;
                  capability = "shell";
                  summary = params.command;
                })
                (list_pending later x.approvals).0)
            (sym reached) shown,
        subst
            (λ x.
              (handle_shell_request host manifest method again last (record x {
                approvals = approve id later (list_pending later x.approvals).1;
              })).1.ran
              ≡ params.command ∷ st.ran)
            (sym reached) runs,
      )
