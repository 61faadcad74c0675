-- ===== src/Approval/History.antt =====
-- Histories of calls on an approval store, and where a grant in it comes from.
use mathlib.Core.Option
use kunkka.Base.{
  ℕ, ◌+◌, ◌≤◌, ◌<◌, String, ◌≡◌, refl, ◌⊎◌, inl, inr, Bool, true, false, Option, none, some, List,
  [], ◌∷◌, arith, ◌==◌, if◌then◌else◌, length,
}
use kunkka.Base.Map.{get, get-remove}
use kunkka.Base.Fallible.{ok}
use kunkka.Approval.{
  approved, rejected, expired, ApprovalRecord, ApprovalStore, set_state, u64_mod, new, create,
  list_pending, approve, reject, expire, consume_approved, reap_expired, expire_pending_entries,
  consume_found, consume_entry,
}
use kunkka.Approval.Entries.{
  swept, live, get-expire_pending_entries, get-create, get-expire, get-settle, get-reap_expired,
}
use kunkka.Approval.Consume.{consume_approved-eq-ok_iff}
use kunkka.Approval.Invariant.{
  IsValid, new-IsValid, create-IsValid, list_pending-IsValid, settle-IsValid, expire-IsValid,
  consume_approved-IsValid, reap_expired-IsValid,
}

-- One call of a method, with the time that it reads.
pub data Call : Type 0 where
  creates : (app_id capability command : String) → List String → (now : ℕ) → Call
  lists reaps : (now : ℕ) → Call
  approves rejects : (id : String) → (now : ℕ) → Call
  expires : (id : String) → Call
  consumes : (id app_id capability command : String) → (now : ℕ) → Call

unfoldable pub step : ApprovalStore → Call → ApprovalStore
step s (creates app_id capability command commands now) =
    (create app_id capability command commands now s).1
step s (lists now) = (list_pending now s).1
step s (reaps now) = reap_expired now s
step s (approves id now) = approve id now s
step s (rejects id now) = reject id now s
step s (expires id) = expire id s
step s (consumes id app_id capability command now) =
    (consume_approved id app_id capability command now s).1

unfoldable pub run : ApprovalStore → List Call → ApprovalStore
run s [] = s
run s (c ∷ cs) = run (step s c) cs

expire_pending_entries_next :
    (now : ℕ) (s : ApprovalStore) → (expire_pending_entries now s).next_id ≡ s.next_id
unfolding expire_pending_entries
expire_pending_entries_next now s = refl

consume_found_next :
    (o : Option ApprovalRecord) (id app_id capability command : String) (t : ApprovalStore)
    → (consume_found o id app_id capability command t).1.next_id ≡ t.next_id
unfolding consume_found consume_entry
consume_found_next none id app_id capability command t = refl
consume_found_next (some e) id app_id capability command t = ground arith

step_next :
    (s : ApprovalStore) (c : Call) → s.next_id + 1 < u64_mod → (step s c).next_id ≤ s.next_id + 1
unfolding step create list_pending reap_expired approve reject expire consume_approved
step_next s (creates app_id capability command commands now) room = omega arith
step_next s (consumes id app_id capability command now) room = omega (
  arith,
  consume_found_next (get id (expire_pending_entries now s).entries) id app_id capability command
      (expire_pending_entries now s),
  expire_pending_entries_next now s,
)
step_next s _ room = omega arith

step-IsValid :
    (s : ApprovalStore) (c : Call) → s.next_id + 1 < u64_mod → IsValid s → IsValid (step s c)
unfolding step approve reject
step-IsValid s (creates app_id capability command commands now) room v =
    create-IsValid app_id capability command commands now s v room
step-IsValid s (lists now) room v = list_pending-IsValid now s v
step-IsValid s (reaps now) room v = reap_expired-IsValid now s v
step-IsValid s (approves id now) room v = settle-IsValid approved id now s v
step-IsValid s (rejects id now) room v = settle-IsValid rejected id now s v
step-IsValid s (expires id) room v = expire-IsValid id s v
step-IsValid s (consumes id app_id capability command now) room v =
    consume_approved-IsValid id app_id capability command now s v

run-IsValid :
    (s : ApprovalStore) (cs : List Call)
    → s.next_id + length cs < u64_mod
    → IsValid s
    → IsValid (run s cs)
unfolding run
run-IsValid s [] room v = v
run-IsValid s (c ∷ cs) room v =
    run-IsValid (step s c) cs (omega (arith, step_next s c)) (step-IsValid s c (omega arith) v)

-- After any history of fewer than 2^64 calls from the empty store, the store is valid: ids are
-- those handed out, each entry stands under its own id, and the keys are in order.
pub run-new-IsValid : (cs : List Call) → length cs < u64_mod → IsValid (run new cs)
run-new-IsValid cs room = run-IsValid new cs (omega arith) new-IsValid

-- Whether the store holds an approved entry under the id.
abbrev is_approved : Option ApprovalRecord → Bool
is_approved none = false
is_approved (some e) = elim e.state [ approved ↦ true | _ ↦ false ]

abbrev grants : ApprovalStore → String → Bool
grants s id = is_approved (get id s.entries)

-- The calls that a user makes to approve the id, and those that take an approval back.
abbrev approves_id : String → Call → Bool
approves_id id (approves j now) = j == id
approves_id id _ = false

abbrev revokes_id : String → Call → Bool
revokes_id id (rejects j now) = j == id
revokes_id id (expires j) = j == id
revokes_id id _ = false

consume_found-grants :
    (o : Option ApprovalRecord) (id j app_id capability command : String) (t : ApprovalStore)
    → grants (consume_found o id app_id capability command t).1 j ≡ true
    → grants t j ≡ true
unfolding consume_found consume_entry
consume_found-grants none id j app_id capability command t h = h
consume_found-grants (some e) id j app_id capability command t h =
    ground (arith, get-remove id j t.entries)

swept_grants :
    (now : ℕ) (o : Option ApprovalRecord) → is_approved (swept now o) ≡ true → is_approved o ≡ true
swept_grants now none h = cc
swept_grants now (some e) h = ground arith

live_grants : (o : Option ApprovalRecord) → is_approved (live o) ≡ true → is_approved o ≡ true
live_grants none h = cc
live_grants (some e) h = ground arith

expired_grants :
    (hit : Bool) (o : Option ApprovalRecord)
    → is_approved (if hit then Option.map (set_state expired) o else o) ≡ true
    → (hit ≡ false) × (is_approved o ≡ true)
expired_grants true none h = cc
expired_grants true (some e) h = cc
expired_grants false o h = (refl, h)

rejected_grants :
    (hit : Bool) (o : Option ApprovalRecord)
    → is_approved (live (if hit then Option.map (set_state rejected) o else o)) ≡ true
    → (hit ≡ false) × (is_approved o ≡ true)
rejected_grants true none h = cc
rejected_grants true (some e) h = cc
rejected_grants false o h = (refl, live_grants o h)

approved_grants :
    (hit : Bool) (o : Option ApprovalRecord)
    → is_approved (live (if hit then Option.map (set_state approved) o else o)) ≡ true
    → (is_approved o ≡ true) ⊎ (hit ≡ true)
approved_grants true o h = inr refl
approved_grants false o h = inl (live_grants o h)

nothing_new : (id : String) → ¬ (grants new id ≡ true)
unfolding get
nothing_new id h = cc

-- What a grant after one call says of the store before it and of the call.
abbrev StepGrants : String → ApprovalStore → Call → Type 0
StepGrants id s c = (revokes_id id c ≡ false) × ((grants s id ≡ true) ⊎ (approves_id id c ≡ true))

reap_grants :
    (id : String) (s : ApprovalStore) (now : ℕ)
    → IsValid s
    → grants (reap_expired now s) id ≡ true
    → grants s id ≡ true
reap_grants id s now v h =
    swept_grants now _ (live_grants _ (rw (get-reap_expired s v.sorted id now) at h))

step_grants :
    (id : String) (s : ApprovalStore) (c : Call)
    → IsValid s
    → grants (step s c) id ≡ true
    → StepGrants id s c
unfolding step approve reject list_pending consume_approved reap_expired
step_grants id s (creates app_id capability command commands now) v h =
    ground (arith, get-create s id app_id capability command commands now)
step_grants id s (lists now) v h = (refl, inl (reap_grants id s now v h))
step_grants id s (reaps now) v h = (refl, inl (reap_grants id s now v h))
step_grants id s (approves j now) v h = (
  refl,
  (elim (approved_grants (j == id) _ (rw (get-settle s v.sorted approved j id now) at h)) [
    | inl old ↦ inl (swept_grants now _ old)
    | inr hit ↦ inr hit
  ]),
)
step_grants id s (rejects j now) v h =
    let (miss, old) =
      rejected_grants (j == id) _ (rw (get-settle s v.sorted rejected j id now) at h) in
    (miss, inl (swept_grants now _ old))
step_grants id s (expires j) v h =
    let (miss, old) = expired_grants (j == id) _ (rw (get-expire s j id) at h) in (miss, inl old)
step_grants id s (consumes j app_id capability command now) v h =
    let t = expire_pending_entries now s in
    let old = consume_found-grants (get j t.entries) j id app_id capability command t h in
    (refl, inl (swept_grants now _ (rw (get-expire_pending_entries s id now) at old)))

-- No call of the history takes an approval of the id back.
abbrev pub Unrevoked : String → List Call → Type 0
Unrevoked id [] = Unit
Unrevoked id (c ∷ cs) = (revokes_id id c ≡ false) × Unrevoked id cs

-- Some call of the history approves the id, and none after it takes that back.
abbrev pub Approved : String → List Call → Type 0
Approved id [] = ⊥
Approved id (c ∷ cs) = ((approves_id id c ≡ true) × Unrevoked id cs) ⊎ Approved id cs

run-grants :
    (id : String) (s : ApprovalStore) (cs : List Call)
    → s.next_id + length cs < u64_mod
    → IsValid s
    → grants (run s cs) id ≡ true
    → ((grants s id ≡ true) × Unrevoked id cs) ⊎ Approved id cs
unfolding run
run-grants id s [] room v h = inl (h, tt)
run-grants id s (c ∷ cs) room v h =
    elim (run-grants id (step s c) cs (omega (arith, step_next s c))
      (step-IsValid s c (omega arith) v) h) [
        | inl (stands, un) ↦
            let (keeps, from) = step_grants id s c v stands in
            (elim from [ inl old ↦ inl ((old, (keeps, un))) | inr hit ↦ inr (inl (hit, un)) ])
        | inr earlier ↦ inr (inr earlier)
      ]

-- A command runs on an approval only if a user approved its id: if `consume_approved` succeeds after
-- a history of fewer than 2^64 calls from the empty store, that history has a call that approves the
-- id, with no `reject` or `expire` of the id after it.
pub consume_needs_approve :
    (cs : List Call) (id app_id capability command : String) (now : ℕ)
    → length cs < u64_mod
    → (consume_approved id app_id capability command now (run new cs)).0 ≡ ok tt
    → Approved id cs
consume_needs_approve cs id app_id capability command now room h =
    let (e, found, g) =
      (consume_approved-eq-ok_iff id app_id capability command now (run new cs)).0 h in
    (elim (run-grants id new cs (omega arith) new-IsValid (granted e found g.state)) [
      | inl (none_yet, _) ↦ absurd (nothing_new id none_yet)
      | inr a ↦ a
    ])
  where
    granted :
        (e : ApprovalRecord)
        → get id (run new cs).entries ≡ some e
        → e.state ≡ approved
        → grants (run new cs) id ≡ true
    granted e found state = ground arith
