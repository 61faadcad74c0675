-- ===== src/Approval/Entries.antt =====
-- What each operation of the approval store does to the entry under an id.
use mathlib.Core.Option
use kunkka.Base.{ℕ, String, ◌≡◌, ap, ◌∙◌, not, Option, some, List, ◌==◌, if◌then◌else◌}
use kunkka.Base.Text.Decimal.{decimal, digits_value, digits_value-append, digits_value-decimal}
use kunkka.Base.Map.{get, keep, get-insert, get-modify, get-map_values}
use kunkka.Base.Map.Sorted.{IsSorted, get-retain_values, map_values-IsSorted, modify-IsSorted}
use kunkka.Approval.{
  ApprovalState, pending, ApprovalRecord, ApprovalStore, is_terminal, approval_name, create,
  expire_entry, set_state, expire_pending_entries, drop_terminal_entries, settle, expire,
  reap_expired,
}

approval_name_value : (n : ℕ) → digits_value 0 (approval_name n) ≡ n
unfolding approval_name digits_value
approval_name_value n = digits_value-append 0 "approval-" (decimal n) ∙ digits_value-decimal n

pub approval_name_inj : (m n : ℕ) → approval_name m ≡ approval_name n → m ≡ n
approval_name_inj m n e = cc (approval_name_value m, approval_name_value n)

-- What `expire_pending_entries` and `drop_terminal_entries` leave of one entry.
abbrev pub swept : ℕ → Option ApprovalRecord → Option ApprovalRecord
swept now = Option.map (expire_entry now)

abbrev pub live : Option ApprovalRecord → Option ApprovalRecord
live = keep (λ e. not (is_terminal e.state))

module _ (s : ApprovalStore) where
  pub get-expire_pending_entries :
      (j : String) (now : ℕ)
      → get j (expire_pending_entries now s).entries ≡ swept now (get j s.entries)
  unfolding expire_pending_entries
  get-expire_pending_entries j now = get-map_values j (expire_entry now) s.entries

  pub get-create :
      (j app_id capability command : String) (commands : List String) (now : ℕ)
      → let (id, t) = create app_id capability command commands now s in
        get j t.entries ≡ (
          if id == j
          then some (record {
            approval_id = id;
            app_id = app_id;
            capability = capability;
            command = command;
            commands = commands;
            state = pending;
            created_at = now;
          })
          else get j s.entries)
  unfolding create
  get-create j app_id capability command commands now = get-insert _ j _ s.entries

  pub get-expire :
      (id j : String)
      → get j (expire id s).entries ≡ (
          if id == j
          then Option.map (set_state ApprovalState.expired) (get j s.entries)
          else get j s.entries)
  unfolding expire
  get-expire id j = get-modify id j _ s.entries

  module _ (sorted : IsSorted s.entries) where
    pub get-settle :
        (state : ApprovalState) (id j : String) (now : ℕ)
        → get j (settle state id now s).entries
          ≡ live (
              if id == j
              then Option.map (set_state state) (swept now (get j s.entries))
              else swept now (get j s.entries))
    unfolding settle expire_pending_entries drop_terminal_entries
    get-settle state id j now =
        get-retain_values j _ _
          (modify-IsSorted id _ _ (map_values-IsSorted (expire_entry now) s.entries sorted))
        ∙ ap live (
            get-modify id j _ _
            ∙ ap (λ o. if id == j then Option.map (set_state state) o else o)
                (get-map_values j (expire_entry now) s.entries))

    pub get-reap_expired :
        (j : String) (now : ℕ)
        → get j (reap_expired now s).entries ≡ live (swept now (get j s.entries))
    unfolding reap_expired expire_pending_entries drop_terminal_entries
    get-reap_expired j now =
        get-retain_values j _ _ (map_values-IsSorted (expire_entry now) s.entries sorted)
        ∙ ap live (get-map_values j (expire_entry now) s.entries)
