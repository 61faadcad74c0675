-- ===== src/Approval/Listing.antt =====
-- What `list_pending` shows.
use mathlib.Core.List.{Memᴰ}
use mathlib.Core.List.Memᴰ
use mathlib.Core.Option.{some-injective}
use kunkka.Base.{
  ℕ, ◌+◌, ◌<◌, String, ◌≡◌, refl, ap, sym, ◌∙◌, ◌↔◌, inl, inr, true, Option, none, some, List, [],
  ◌∷◌, arith, ◌==◌, eq_iff, eq_refl, Bool-cases, ◌⊎◌, subst,
}
use kunkka.Base.Map.{Map, get, values}
use kunkka.Base.Map.Sorted.{IsSorted, IsAbove, get-eq-none_of_IsAbove}
use kunkka.Protocol.{PendingApproval}
use kunkka.Approval.{
  pending, ApprovalRecord, ApprovalStore, approval_ttl, expire_entry, is_pending, pending_item,
  pending_items, list_pending,
}
use kunkka.Approval.Entries.{swept, get-expire_pending_entries}
use kunkka.Approval.Invariant.{IsValid, sweep-IsSorted}

-- The item stands for a pending entry of the map.
abbrev Offers : Map ApprovalRecord → PendingApproval → Type 0
Offers m item =
    (k : String) × (e : ApprovalRecord) × (get k m ≡ some e)
    × (is_pending e.state ≡ true)
    × (item ≡ pending_item e)

Offers-cons :
    (j : String) (w : ApprovalRecord) (m : Map ApprovalRecord) (item : PendingApproval)
    → IsAbove j m
    → Offers m item
    → Offers ((j, w) ∷ m) item
unfolding get
Offers-cons j w m item a (k, e, found, waits, same) =
    (k, e, ground (arith, eq_iff j k, get-eq-none_of_IsAbove j m a), waits, same)

item_cases :
    (w : ApprovalRecord) (es : List ApprovalRecord) (item : PendingApproval)
    → Memᴰ item (pending_items (w ∷ es))
    → ((is_pending w.state ≡ true) × (item ≡ pending_item w)) ⊎ Memᴰ item (pending_items es)
item_cases w es item h = elim (Bool-cases (is_pending w.state)) [
  | inl waits ↦ elim (Memᴰ.cases_cons (rw (waits, pending_items) at h)) [
    | inl same ↦ inl (waits, same)
    | inr later ↦ inr later
  ]
  | inr settled ↦ inr (rw (settled, pending_items) at h)
]

items_sound :
    (m : Map ApprovalRecord) (item : PendingApproval)
    → IsSorted m
    → Memᴰ item (pending_items (values m))
    → Offers m item
unfolding values get
items_sound [] item _ h = absurd (Memᴰ.not-nil h)
items_sound ((j, w) ∷ m) item (a, s) h = elim (item_cases w (values m) item h) [
  | inl (waits, same) ↦ (j, w, rw (eq_refl j) refl, waits, same)
  | inr later ↦ Offers-cons j w m item a (items_sound m item s later)
]

item-cons :
    (w : ApprovalRecord) (es : List ApprovalRecord) (item : PendingApproval)
    → Memᴰ item (pending_items es)
    → Memᴰ item (pending_items (w ∷ es))
item-cons w es item h = elim (Bool-cases (is_pending w.state)) [
  | inl waits ↦ rw (waits, pending_items) (Memᴰ.tail h)
  | inr settled ↦ rw (settled, pending_items) h
]

items_complete :
    (m : Map ApprovalRecord) (k : String) (e : ApprovalRecord)
    → get k m ≡ some e
    → is_pending e.state ≡ true
    → Memᴰ (pending_item e) (pending_items (values m))
unfolding values get
items_complete [] k e found waits = cc
items_complete ((j, w) ∷ m) k e found waits = elim (Bool-cases (j == k)) [
  | inl hit ↦
      let same : w ≡ e = some-injective w e (rw hit at found) in
      rw same (rw (waits, pending_items) (Memᴰ.head refl))
  | inr miss ↦ item-cons w (values m) _ (items_complete m k e (rw miss at found) waits)
]

-- A pending entry whose time to live is not over.
pub record IsWaiting (now : ℕ) (e : ApprovalRecord) : Type 0 where
  pub waits : e.state ≡ pending
  pub fresh : now < e.created_at + approval_ttl

expire_entry_pending :
    (now : ℕ) (e : ApprovalRecord)
    → is_pending (expire_entry now e).state ≡ true
    → IsWaiting now e × (expire_entry now e ≡ e)
expire_entry_pending now e h = (record { waits = ground arith; fresh = ground arith }, ground arith)

pub expire_entry_waiting : (now : ℕ) (e : ApprovalRecord) → IsWaiting now e → expire_entry now e ≡ e
expire_entry_waiting now e w = ground arith

swept-IsWaiting :
    (now : ℕ) (o : Option ApprovalRecord) (e : ApprovalRecord)
    → swept now o ≡ some e
    → is_pending e.state ≡ true
    → (o ≡ some e) × IsWaiting now e
swept-IsWaiting now none e h waits = cc
swept-IsWaiting now (some d) e h waits =
    let same = some-injective (expire_entry now d) e h in
    let (w, kept) = expire_entry_pending now d (rw same waits) in
    (ap some (sym kept ∙ same), subst (IsWaiting now) (sym kept ∙ same) w)

-- In a valid store, `list_pending` shows exactly the entries that are pending and whose time to live is not over.
pub list_pending-mem_iff :
    (now : ℕ) (s : ApprovalStore) (item : PendingApproval)
    → IsValid s
    → Memᴰ item (list_pending now s).0 ↔ (
        (k : String) × (e : ApprovalRecord) × (get k s.entries ≡ some e)
        × IsWaiting now e
        × (item ≡ pending_item e))
unfolding list_pending
list_pending-mem_iff now s item v = (
  λ h.
      let (k, e, found, waits, same) = items_sound _ item (sweep-IsSorted now s v.sorted) h in
      let (old, w) =
        swept-IsWaiting now _ e (sym (get-expire_pending_entries s k now) ∙ found) waits in
      (k, e, old, w, same),
  λ (k, e, found, w, same). rw same (
      items_complete _ k e
        (get-expire_pending_entries s k now ∙ rw found (ap some (expire_entry_waiting now e w)))
        (rw w.waits refl)),
)
