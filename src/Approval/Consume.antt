-- ===== src/Approval/Consume.antt =====
-- `consume_approved`: when it lets a command run, and that it does so once. How `approve` treats a
-- request whose time is over.
use kunkka.Base.{
  ℕ, ◌+◌, ◌≤◌, String, ◌≡◌, refl, ap, ◌∙◌, ◌↔◌, inl, inr, false, Option, none, some, arith, eq_iff,
  eq_refl, Bool-cases,
}
use kunkka.Base.Map.{get, get-remove}
use kunkka.Base.Fallible.{ok, err}
use kunkka.Approval.{
  pending, approved, ApprovalRecord, ApprovalStore, approval_ttl, expire_entry, set_state,
  not_found, mismatch, expire_pending_entries, approve, consume_approved, consume_found,
  consume_entry, mismatches, reap_expired,
}
use kunkka.Approval.Entries.{swept, get-expire_pending_entries, get-settle, get-reap_expired}
use kunkka.Approval.Invariant.{IsValid}

-- The entry grants this command to this app.
pub record Grants (e : ApprovalRecord) (app_id capability command : String) : Type 0 where
  pub state : e.state ≡ approved
  pub app : e.app_id ≡ app_id
  pub cap : e.capability ≡ capability
  pub cmd : e.command ≡ command

abbrev pub GrantedIn : ApprovalStore → String → String → String → String → Type 0
GrantedIn s id app_id capability command =
    (e : ApprovalRecord) × (get id s.entries ≡ some e) × Grants e app_id capability command

matches_iff :
    (e : ApprovalRecord) (app_id capability command : String)
    → (mismatches e app_id capability command ≡ false)
      ↔ ((e.app_id ≡ app_id) × (e.capability ≡ capability) × (e.command ≡ command))
matches_iff e app_id capability command =
    ground (arith, eq_iff e.app_id app_id, eq_iff e.capability capability, eq_iff e.command command)

consume_found-eq-ok :
    (o : Option ApprovalRecord) (id app_id capability command : String) (now : ℕ)
    (t : ApprovalStore)
    → (consume_found (swept now o) id app_id capability command t).0 ≡ ok tt
    → (e : ApprovalRecord) × (o ≡ some e) × Grants e app_id capability command
unfolding consume_found consume_entry
consume_found-eq-ok none id app_id capability command now t h = cc
consume_found-eq-ok (some e) id app_id capability command now t h = (
  e,
  refl,
  ground (
    arith,
    matches_iff e app_id capability command,
    matches_iff (expire_entry now e) app_id capability command,
  ),
)

consume_found-eq-ok_of_Grants :
    (e : ApprovalRecord) (id app_id capability command : String) (now : ℕ) (t : ApprovalStore)
    → Grants e app_id capability command
    → (consume_found (swept now (some e)) id app_id capability command t).0 ≡ ok tt
unfolding consume_found consume_entry
consume_found-eq-ok_of_Grants e id app_id capability command now t g =
    ground (arith, matches_iff e app_id capability command)

-- `consume_approved` succeeds exactly when the store holds an approved entry under the id for this
-- app, capability and command, whatever the time.
pub consume_approved-eq-ok_iff :
    (id app_id capability command : String) (now : ℕ) (s : ApprovalStore)
    → ((consume_approved id app_id capability command now s).0 ≡ ok tt)
      ↔ GrantedIn s id app_id capability command
unfolding consume_approved
consume_approved-eq-ok_iff id app_id capability command now s =
    let look = get-expire_pending_entries s id now in
    (
      λ h. consume_found-eq-ok (get id s.entries) id app_id capability command now _ (rw look at h),
      λ (e, found, g).
          rw (look, found) (consume_found-eq-ok_of_Grants e id app_id capability command now _ g),
    )

consume_found_removes :
    (o : Option ApprovalRecord) (id app_id capability command : String) (t : ApprovalStore)
    → (consume_found o id app_id capability command t).0 ≡ ok tt
    → get id (consume_found o id app_id capability command t).1.entries ≡ none
unfolding consume_found consume_entry
consume_found_removes none id app_id capability command t h = cc
consume_found_removes (some e) id app_id capability command t h =
    ground (arith, get-remove id id t.entries, eq_refl id)

-- A grant is good for one command: once consumed, the same id is not found, whatever is asked.
pub consume_approved_once :
    (id app_id capability command app_id' capability' command' : String) (now later : ℕ)
    (s : ApprovalStore)
    → (consume_approved id app_id capability command now s).0 ≡ ok tt
    → (consume_approved id app_id' capability' command' later
        (consume_approved id app_id capability command now s).1).0
      ≡ err not_found
unfolding consume_approved
consume_approved_once id app_id capability command app_id' capability' command' now later s h =
    let after = (consume_approved id app_id capability command now s).1 in
    let gone : get id (expire_pending_entries later after).entries ≡ none =
      get-expire_pending_entries after id later
      ∙ ap (swept later) (consume_found_removes _ id app_id capability command _ h) in
    rw (gone, consume_found)

consume_found_mismatch :
    (e : ApprovalRecord) (id app_id capability command : String) (t : ApprovalStore)
    → ¬ ((e.app_id ≡ app_id) × (e.capability ≡ capability) × (e.command ≡ command))
    → consume_found (some e) id app_id capability command t ≡ (err mismatch, t)
unfolding consume_found
consume_found_mismatch e id app_id capability command t differ =
    elim (Bool-cases (mismatches e app_id capability command)) [
      | inl yes' ↦ rw yes'
      | inr same ↦ absurd (differ ((matches_iff e app_id capability command).0 same))
    ]

expire_entry_of_approved :
    (now : ℕ) (e : ApprovalRecord) → e.state ≡ approved → expire_entry now e ≡ e
expire_entry_of_approved now e h = ground arith

-- An attempt for another app, capability or command fails and leaves the grant in place.
pub mismatch_keeps_grant :
    (id app_id capability command app_id' capability' command' : String) (now : ℕ)
    (s : ApprovalStore)
    → GrantedIn s id app_id capability command
    → ¬ ((app_id ≡ app_id') × (capability ≡ capability') × (command ≡ command'))
    → ((consume_approved id app_id' capability' command' now s).0 ≡ err mismatch)
      × GrantedIn
          (consume_approved id app_id' capability' command' now s).1
          id
          app_id
          capability
          command
unfolding consume_approved
mismatch_keeps_grant id app_id capability command app_id' capability' command' now s (e, found, g)
      other =
    let t = expire_pending_entries now s in
    let look : get id t.entries ≡ some e =
      get-expire_pending_entries s id now
      ∙ ap (swept now) found
      ∙ ap some (expire_entry_of_approved now e g.state) in
    let result =
      consume_found_mismatch e id app_id' capability' command' t
        (λ (a, c, d). other (cc (g.app), cc (g.cap), cc (g.cmd))) in
    rw (look, result) (refl, (e, look, g))

-- In a valid store, approving an id grants its command also when the request has been pending for its whole time to
-- live, so that a sweep at that moment drops it: `approve` overwrites the state that its own sweep
-- has just set to expired.
pub approve_revives_expired :
    (id : String) (now later : ℕ) (s : ApprovalStore) (e : ApprovalRecord)
    → IsValid s
    → get id s.entries ≡ some e
    → e.state ≡ pending
    → e.created_at + approval_ttl ≤ now
    → (get id (reap_expired now s).entries ≡ none)
      × ((consume_approved id e.app_id e.capability e.command later (approve id now s)).0 ≡ ok tt)
unfolding approve
approve_revives_expired id now later s e v found waits over = (
  get-reap_expired s v.sorted id now ∙ rw found (ground arith),
  (consume_approved-eq-ok_iff id e.app_id e.capability e.command later (approve id now s)).1 (
    set_state approved (expire_entry now e),
    get-settle s v.sorted approved id id now ∙ rw (found, eq_refl id) refl,
    record { state = refl; app = ground arith; cap = ground arith; cmd = ground arith },
  ),
)
