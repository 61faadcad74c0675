-- ===== src/Approval/Invariant.antt =====
-- The invariant of the approval store: ids are the names of numbers handed out so far, no entry
-- stands under another's id, and the map is in key order.
use mathlib.Core.Option
use mathlib.Core.Option.{some-injective}
use kunkka.Base.{
  ℕ, ◌+◌, ◌%◌, ◌≤◌, ◌<◌, String, ◌≡◌, refl, sym, ◌∙◌, inl, inr, Bool, Option, none, some, List,
  arith, ◌==◌, eq_iff, if◌then◌else◌, Option-cases, Bool-cases,
}
use kunkka.Base.Map
use kunkka.Base.Map.{get, get-remove}
use native.Mathlib.Nat.{mod-eq_of_lt}
use kunkka.Base.Map.Sorted.{
  IsSorted, insert-IsSorted, remove-IsSorted, map_values-IsSorted, modify-IsSorted,
  retain_values-IsSorted,
}
use kunkka.Approval.{
  ApprovalState, ApprovalRecord, ApprovalStore, approval_name, create, expire_entry, set_state,
  u64_mod, new, expire_pending_entries, drop_terminal_entries, settle, expire, reap_expired,
  list_pending, consume_approved, consume_found, consume_entry, mismatches,
}
use kunkka.Approval.Entries.{
  approval_name_inj, swept, live, get-expire_pending_entries, get-create, get-expire, get-settle,
  get-reap_expired,
}

-- An entry stands under its own id, and the id was handed out.
pub record IsNamed (next : ℕ) (k : String) (e : ApprovalRecord) : Type 0 where
  pub own : e.approval_id ≡ k
  pub number : ℕ
  pub given : number ≤ next
  pub name : k ≡ approval_name number

pub record IsValid (s : ApprovalStore) : Type 0 where
  pub sorted : IsSorted s.entries
  pub named : (k : String) (e : ApprovalRecord) → get k s.entries ≡ some e → IsNamed s.next_id k e

-- A change of one entry that drops it or keeps its id.
abbrev Shrinks : (Option ApprovalRecord → Option ApprovalRecord) → Type 0
Shrinks f =
    (o : Option ApprovalRecord) (e : ApprovalRecord)
    → f o ≡ some e
    → (d : ApprovalRecord) × (o ≡ some d) × (d.approval_id ≡ e.approval_id)

IsNamed-of_same :
    (n : ℕ) (k : String) (d e : ApprovalRecord)
    → d.approval_id ≡ e.approval_id
    → IsNamed n k d
    → IsNamed n k e
IsNamed-of_same n k d e same v = record {
  own = cc (v.own);
  number = v.number;
  given = v.given;
  name = v.name;
}

-- An operation that leaves `next_id` alone and changes each entry in such a way.
IsValid-of_Shrinks :
    (s t : ApprovalStore) (f : String → Option ApprovalRecord → Option ApprovalRecord)
    → IsValid s
    → t.next_id ≡ s.next_id
    → IsSorted t.entries
    → ((k : String) → get k t.entries ≡ f k (get k s.entries))
    → ((k : String) → Shrinks (f k))
    → IsValid t
IsValid-of_Shrinks s t f v same sorted law shrinks = record {
  sorted = sorted;
  named = λ k e found.
      let (d, old, kept) = shrinks k (get k s.entries) e (sym (law k) ∙ found) in
      rw same (IsNamed-of_same s.next_id k d e kept (v.named k d old));
}

pub new-IsValid : IsValid new
unfolding get
new-IsValid = record { sorted = tt; named = λ k e found. cc }

pub sweep-IsSorted :
    (now : ℕ) (s : ApprovalStore)
    → IsSorted s.entries
    → IsSorted (expire_pending_entries now s).entries
unfolding expire_pending_entries
sweep-IsSorted now s h = map_values-IsSorted (expire_entry now) s.entries h

settle-Shrinks :
    (state : ApprovalState) (hit : Bool) (now : ℕ)
    → Shrinks (λ o. live (if hit then Option.map (set_state state) (swept now o) else swept now o))
settle-Shrinks state hit now none e h = ground arith
settle-Shrinks state hit now (some d) e h = (d, refl, ground arith)

pub settle-IsValid :
    (state : ApprovalState) (id : String) (now : ℕ) (s : ApprovalStore)
    → IsValid s
    → IsValid (settle state id now s)
unfolding settle expire_pending_entries drop_terminal_entries
settle-IsValid state id now s v =
    IsValid-of_Shrinks s (settle state id now s)
      (λ k o. live (if id == k then Option.map (set_state state) (swept now o) else swept now o)) v
      refl
      (retain_values-IsSorted _ _
        (modify-IsSorted id _ _ (map_values-IsSorted (expire_entry now) s.entries v.sorted)))
      (λ k. get-settle s v.sorted state id k now) (λ k. settle-Shrinks state (id == k) now)

reap-Shrinks : (now : ℕ) → Shrinks (λ o. live (swept now o))
reap-Shrinks now none e h = ground arith
reap-Shrinks now (some d) e h = (d, refl, ground arith)

pub reap_expired-IsValid : (now : ℕ) (s : ApprovalStore) → IsValid s → IsValid (reap_expired now s)
unfolding reap_expired expire_pending_entries drop_terminal_entries
reap_expired-IsValid now s v =
    IsValid-of_Shrinks s (reap_expired now s) (λ k o. live (swept now o)) v refl
      (retain_values-IsSorted _ _ (map_values-IsSorted (expire_entry now) s.entries v.sorted))
      (λ k. get-reap_expired s v.sorted k now) (λ k. reap-Shrinks now)

pub list_pending-IsValid :
    (now : ℕ) (s : ApprovalStore) → IsValid s → IsValid (list_pending now s).1
unfolding list_pending reap_expired
list_pending-IsValid = reap_expired-IsValid

sweep-Shrinks : (now : ℕ) → Shrinks (swept now)
sweep-Shrinks now none e h = ground arith
sweep-Shrinks now (some d) e h = (d, refl, ground arith)

sweep-IsValid : (now : ℕ) (s : ApprovalStore) → IsValid s → IsValid (expire_pending_entries now s)
unfolding expire_pending_entries
sweep-IsValid now s v =
    IsValid-of_Shrinks s (expire_pending_entries now s) (λ k. swept now) v refl
      (sweep-IsSorted now s v.sorted) (λ k. get-expire_pending_entries s k now)
      (λ k. sweep-Shrinks now)

expire-Shrinks :
    (hit : Bool) → Shrinks (λ o. if hit then Option.map (set_state ApprovalState.expired) o else o)
expire-Shrinks hit none e h = ground arith
expire-Shrinks hit (some d) e h = (d, refl, ground arith)

pub expire-IsValid : (id : String) (s : ApprovalStore) → IsValid s → IsValid (expire id s)
unfolding expire
expire-IsValid id s v =
    IsValid-of_Shrinks s (expire id s)
      (λ k o. if id == k then Option.map (set_state ApprovalState.expired) o else o) v refl
      (modify-IsSorted id _ s.entries v.sorted) (λ k. get-expire s id k)
      (λ k. expire-Shrinks (id == k))

remove-Shrinks : (hit : Bool) → Shrinks (λ o. if hit then none else o)
remove-Shrinks hit o e h = (e, ground arith, refl)

remove-IsValid :
    (id : String) (s : ApprovalStore)
    → IsValid s
    → IsValid (record s { entries = Map.remove id s.entries })
remove-IsValid id s v =
    IsValid-of_Shrinks s (record s { entries = Map.remove id s.entries })
      (λ k o. if id == k then none else o) v refl (remove-IsSorted id s.entries v.sorted)
      (λ k. get-remove id k s.entries) (λ k. remove-Shrinks (id == k))

consume_entry-IsValid :
    (state : ApprovalState) (id : String) (s : ApprovalStore)
    → IsValid s
    → IsValid (consume_entry state id s).1
unfolding consume_entry
consume_entry-IsValid ApprovalState.pending id s v = v
consume_entry-IsValid _ id s v = remove-IsValid id s v

pub consume_approved-IsValid :
    (id app_id capability command : String) (now : ℕ) (s : ApprovalStore)
    → IsValid s
    → IsValid (consume_approved id app_id capability command now s).1
unfolding consume_approved
consume_approved-IsValid id app_id capability command now s v =
    found _ (sweep-IsValid now s v) (get id (expire_pending_entries now s).entries)
  where
    found :
        (t : ApprovalStore)
        → IsValid t
        → (o : Option ApprovalRecord) → IsValid (consume_found o id app_id capability command t).1
    found t w none = w
    found t w (some e) = elim (Bool-cases (mismatches e app_id capability command)) [
      | inl differ ↦ rw (differ, consume_found) w
      | inr same ↦ rw (same, consume_found) (consume_entry-IsValid e.state id t w)
    ]

-- In a valid store whose counter is not at its end, the id that `create` hands out is none of those in
-- the store.
pub create-fresh :
    (app_id capability command : String) (commands : List String) (now : ℕ) (s : ApprovalStore)
    → IsValid s
    → s.next_id + 1 < u64_mod
    → get (create app_id capability command commands now s).0 s.entries ≡ none
unfolding create
create-fresh app_id capability command commands now s v room =
    elim (Option-cases (get (approval_name ((s.next_id + 1) % u64_mod)) s.entries)) [
      | inl missing ↦ missing
      | inr (e, found) ↦
          let n = v.named _ e found in
          absurd (omega (arith, approval_name_inj _ n.number n.name, n.given, mod-eq_of_lt room))
    ]

created-IsNamed :
    (next m : ℕ) (k : String) (fresh e : ApprovalRecord) (o : Option ApprovalRecord)
    → next ≤ m
    → fresh.approval_id ≡ approval_name m
    → ((d : ApprovalRecord) → o ≡ some d → IsNamed next k d)
    → (if approval_name m == k then some fresh else o) ≡ some e
    → IsNamed m k e
created-IsNamed next m k fresh e o grows own old h = elim (Bool-cases (approval_name m == k)) [
  | inl hit ↦
      let same = (eq_iff (approval_name m) k).0 hit in
      let here : fresh ≡ e = some-injective fresh e (rw hit at h) in
      record { own = cc; number = m; given = omega arith; name = sym same }
  | inr miss ↦
      let n = old e (rw miss at h) in
      record { own = n.own; number = n.number; given = omega (arith, n.given); name = n.name }
]

pub create-IsValid :
    (app_id capability command : String) (commands : List String) (now : ℕ) (s : ApprovalStore)
    → IsValid s
    → s.next_id + 1 < u64_mod
    → IsValid (create app_id capability command commands now s).1
unfolding create
create-IsValid app_id capability command commands now s v room = record {
  sorted = insert-IsSorted _ _ s.entries v.sorted;
  named = λ k e found.
      created-IsNamed s.next_id _ k _ e (get k s.entries) (omega (arith, mod-eq_of_lt room)) refl
        (v.named k) (sym (get-create s k app_id capability command commands now) ∙ found);
}
