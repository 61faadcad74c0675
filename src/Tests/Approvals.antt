-- ===== src/Tests/Approvals.antt =====
-- Tests of crates/kunkka-core/src/approval.rs.
use mathlib.Core.List.{Memᴰ}
use kunkka.Base.{String, ◌≡◌, refl, ◌↔◌, none, some, List, [], ◌∷◌, arith, eq_iff}
use kunkka.Base.Map
use kunkka.Base.Fallible.{ok, err}
use kunkka.Approval.{
  ApprovalRecord, ApprovalStore, new, pending, create, approve, list_pending, consume_approved,
  reap_expired, pending_item, approval_name, not_found, mismatch,
}
use kunkka.Approval.Consume.{
  GrantedIn, consume_approved-eq-ok_iff, consume_approved_once, mismatch_keeps_grant,
  approve_revives_expired,
}
use kunkka.Approval.Invariant.{IsValid, new-IsValid, create-fresh, create-IsValid}
use kunkka.Approval.Listing.{IsWaiting, list_pending-mem_iff}
use kunkka.Approval.History.{
  Call, creates, approves, run, step, run-new-IsValid, Approved, consume_needs_approve,
}

abbrev history : List Call
history = creates "notes" "shell" "rm x" ("rm" ∷ []) 0 ∷ approves "approval-1" 5 ∷ []

history_consumes :
    (consume_approved "approval-1" "notes" "shell" "rm x" 6 (run new history)).0 ≡ ok tt
unfolding consume_approved run step approve create Map.get Map.insert Map.modify Map.map_values
    Map.retain_values approval_name
history_consumes = refl

consume_needs_approve_example : Approved "approval-1" history
consume_needs_approve_example =
    consume_needs_approve history "approval-1" "notes" "shell" "rm x" 6 (omega arith)
      history_consumes

run-new-IsValid_example : IsValid (run new history)
run-new-IsValid_example = run-new-IsValid history (omega arith)

consume_approved-eq-ok_iff_example :
    ((consume_approved "approval-1" "notes" "shell" "rm x" 6 (run new history)).0 ≡ ok tt)
    ↔ GrantedIn (run new history) "approval-1" "notes" "shell" "rm x"
consume_approved-eq-ok_iff_example =
    consume_approved-eq-ok_iff "approval-1" "notes" "shell" "rm x" 6 (run new history)

consume_approved_once_example :
    (consume_approved "approval-1" "notes" "shell" "rm x" 7
      (consume_approved "approval-1" "notes" "shell" "rm x" 6 (run new history)).1).0
    ≡ err not_found
consume_approved_once_example =
    consume_approved_once "approval-1" "notes" "shell" "rm x" "notes" "shell" "rm x" 6 7
      (run new history) history_consumes

history_grants : GrantedIn (run new history) "approval-1" "notes" "shell" "rm x"
history_grants =
    (consume_approved-eq-ok_iff "approval-1" "notes" "shell" "rm x" 6 (run new history)).0
      history_consumes

mismatch_keeps_grant_example :
    ((consume_approved "approval-1" "other" "shell" "rm x" 6 (run new history)).0 ≡ err mismatch)
    × GrantedIn
        (consume_approved "approval-1" "other" "shell" "rm x" 6 (run new history)).1
        "approval-1"
        "notes"
        "shell"
        "rm x"
mismatch_keeps_grant_example =
    mismatch_keeps_grant "approval-1" "notes" "shell" "rm x" "other" "shell" "rm x" 6
      (run new history) history_grants (λ (same, _, _). ground (arith, eq_iff "notes" "other"))

abbrev asked : ApprovalStore
asked = (create "notes" "shell" "rm x" ("rm" ∷ []) 0 new).1

abbrev request : ApprovalRecord
request = record {
  approval_id = "approval-1";
  app_id = "notes";
  capability = "shell";
  command = "rm x";
  commands = "rm" ∷ [];
  state = pending;
  created_at = 0;
}

asked-IsValid : IsValid asked
asked-IsValid = create-IsValid "notes" "shell" "rm x" ("rm" ∷ []) 0 new new-IsValid (omega arith)

asked_holds : Map.get "approval-1" asked.entries ≡ some request
unfolding create Map.get Map.insert approval_name
asked_holds = refl

list_pending-mem_iff_example : Memᴰ (pending_item request) (list_pending 3 asked).0 ↔ (
    (k : String) × (e : ApprovalRecord) × (Map.get k asked.entries ≡ some e)
    × IsWaiting 3 e
    × (pending_item request ≡ pending_item e))
list_pending-mem_iff_example = list_pending-mem_iff 3 asked (pending_item request) asked-IsValid

create-fresh_example :
    Map.get (create "notes" "shell" "ls" ("ls" ∷ []) 4 asked).0 asked.entries ≡ none
unfolding create
create-fresh_example =
    create-fresh "notes" "shell" "ls" ("ls" ∷ []) 4 asked asked-IsValid (omega arith)

approve_revives_expired_example :
    (Map.get "approval-1" (reap_expired 60_000_000_000 asked).entries ≡ none)
    × ((consume_approved "approval-1" "notes" "shell" "rm x" 99_000_000_000
          (approve "approval-1" 60_000_000_000 asked)).0
        ≡ ok tt)
approve_revives_expired_example =
    approve_revives_expired "approval-1" 60_000_000_000 99_000_000_000 asked request asked-IsValid
      asked_holds refl (omega arith)
