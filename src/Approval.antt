-- ===== src/Approval.antt =====
-- crates/kunkka-core/src/approval.rs: the store of approvals that a user grants to shell commands.
-- `Instant::now()` is an argument, in nanoseconds, and `duration_since` stops at 0 as Rust's does;
-- `next_id` is a `u64` and wraps as in a release build. The log line of `reap_expired` is left out.
pub mod Entries
pub mod Invariant
pub mod Consume
pub mod History
pub mod Listing
use kunkka.Base.{
  ℕ, ◌+◌, ◌-◌, ◌*◌, ◌%◌, ◌^◌, String, ◌<>◌, Bool, true, false, not, ◌&&◌, ◌||◌, Option, none, some,
  List, [], ◌∷◌, map, leb, if◌then◌else◌, ◌==◌,
}
use kunkka.Base.Text.Decimal.{decimal}
use kunkka.Base.Map
use kunkka.Base.Map.{Map}
use kunkka.Base.Fallible.{Result, ok, err}
use kunkka.Protocol.{PendingApproval}

abbrev pub approval_ttl : ℕ
approval_ttl = 60 * 1_000_000_000

abbrev pub u64_mod : ℕ
u64_mod = 2 ^ 64

pub data ApprovalState : Type 0 where
  pending approved rejected expired : ApprovalState

pub record ApprovalRecord : Type 0 where
  pub approval_id : String
  pub app_id : String
  pub capability : String
  pub command : String
  pub commands : List String
  pub state : ApprovalState
  pub created_at : ℕ

pub data ApprovalConsumeError : Type 0 where
  not_found still_pending was_rejected was_expired mismatch : ApprovalConsumeError

pub record ApprovalStore : Type 0 where
  pub entries : Map ApprovalRecord
  pub next_id : ℕ

abbrev pub is_pending : ApprovalState → Bool
is_pending pending = true
is_pending _ = false

abbrev pub is_terminal : ApprovalState → Bool
is_terminal rejected = true
is_terminal expired = true
is_terminal _ = false

abbrev pub new : ApprovalStore
new = record { entries = Map.empty; next_id = 0 }

unfoldable pub approval_name : ℕ → String
unfolding decimal
approval_name n = "approval-" <> decimal n

unfoldable pub create :
    String → String → String → List String → ℕ → ApprovalStore → String × ApprovalStore
create app_id capability command commands now s =
    let next = (s.next_id + 1) % u64_mod in
    let approval_id = approval_name next in
    let fresh : ApprovalRecord = record {
      approval_id = approval_id;
      app_id = app_id;
      capability = capability;
      command = command;
      commands = commands;
      state = pending;
      created_at = now;
    } in
    (approval_id, record { entries = Map.insert approval_id fresh s.entries; next_id = next })

-- The body of the loop in `expire_pending_entries`.
abbrev pub expire_entry : ℕ → ApprovalRecord → ApprovalRecord
expire_entry now e =
    if is_pending e.state && leb approval_ttl (now - e.created_at)
    then record e { state = expired }
    else e

unfoldable pub expire_pending_entries : ℕ → ApprovalStore → ApprovalStore
expire_pending_entries now s = record s { entries = Map.map_values (expire_entry now) s.entries }

unfoldable pub drop_terminal_entries : ApprovalStore → ApprovalStore
drop_terminal_entries s = record s {
  entries = Map.retain_values (λ e. not (is_terminal e.state)) s.entries;
}

abbrev pub set_state : ApprovalState → ApprovalRecord → ApprovalRecord
set_state state e = record e { state = state }

abbrev pub pending_item : ApprovalRecord → PendingApproval
pending_item e = record {
  approval_id = e.approval_id;
  app_id = e.app_id;
  capability = e.capability;
  summary = e.command;
}

abbrev pub pending_items : List ApprovalRecord → List PendingApproval
pending_items [] = []
pending_items (e ∷ es) = elim (is_pending e.state) [
  | true ↦ pending_item e ∷ pending_items es
  | false ↦ pending_items es
]

unfoldable pub list_pending : ℕ → ApprovalStore → List PendingApproval × ApprovalStore
unfolding expire_pending_entries drop_terminal_entries
list_pending now s =
    let swept = expire_pending_entries now s in
    (pending_items (Map.values swept.entries), drop_terminal_entries swept)

-- `approve` and `reject` differ in the state that they write.
unfoldable pub settle : ApprovalState → String → ℕ → ApprovalStore → ApprovalStore
unfolding expire_pending_entries drop_terminal_entries
settle state approval_id now s =
    let swept = expire_pending_entries now s in
    drop_terminal_entries
      (record swept { entries = Map.modify approval_id (set_state state) swept.entries })

unfoldable pub approve : String → ℕ → ApprovalStore → ApprovalStore
unfolding settle
approve = settle approved

unfoldable pub reject : String → ℕ → ApprovalStore → ApprovalStore
unfolding settle
reject = settle rejected

unfoldable pub expire : String → ApprovalStore → ApprovalStore
expire approval_id s = record s { entries = Map.modify approval_id (set_state expired) s.entries }

abbrev pub Consumed : Type 0
Consumed = Result ApprovalConsumeError (Unit {0}) × ApprovalStore

-- The `match entry.state` of `consume_approved`.
consume_entry : ApprovalState → String → ApprovalStore → Consumed
consume_entry pending approval_id s = (err still_pending, s)
consume_entry rejected approval_id s =
    (err was_rejected, record s { entries = Map.remove approval_id s.entries })
consume_entry expired approval_id s =
    (err was_expired, record s { entries = Map.remove approval_id s.entries })
consume_entry approved approval_id s =
    (ok tt, record s { entries = Map.remove approval_id s.entries })

abbrev pub mismatches : ApprovalRecord → String → String → String → Bool
mismatches e app_id capability command =
    not (e.app_id == app_id) || not (e.capability == capability) || not (e.command == command)

consume_found : Option ApprovalRecord → String → String → String → String → ApprovalStore → Consumed
unfolding consume_entry
consume_found none approval_id app_id capability command s = (err not_found, s)
consume_found (some e) approval_id app_id capability command s =
    if mismatches e app_id capability command
    then (err mismatch, s)
    else consume_entry e.state approval_id s

unfoldable pub consume_approved : String → String → String → String → ℕ → ApprovalStore → Consumed
unfolding consume_found expire_pending_entries
consume_approved approval_id app_id capability command now s =
    let swept = expire_pending_entries now s in
    consume_found (Map.get approval_id swept.entries) approval_id app_id capability command swept

unfoldable pub reap_expired : ℕ → ApprovalStore → ApprovalStore
unfolding expire_pending_entries drop_terminal_entries
reap_expired now s = drop_terminal_entries (expire_pending_entries now s)
