-- ===== src/Native/Framing/Read.antt =====
-- `read_native_message` against a description of one message at the head of the whole input.
use kunkka.Base.{
  ℕ, zero, suc, ◌≤◌, ◌<◌, ◌≡◌, ◌≢◌, refl, subst, sym, inl, inr, false, Option, none, some, [], ◌∷◌,
  ◌++◌, ltb, length, if◌then◌else◌, arith, Bool-cases, Option-cases,
}
use kunkka.Base.Fallible.{Result, ok, err}
use kunkka.Ipc.{Bytes}
use kunkka.Native.{NativeHostError}
use kunkka.Native.Messaging.{
  Reader, max_native_message_len, from_le_bytes, prefix_error, body_error, too_large, read_body,
  finish_body, after_prefix, read_native_message,
}
use kunkka.Native.Framing.Prefix.{
  Delivers, PrefixRead, full, at_end, cut_short, read_prefix-PrefixRead,
}

-- The first `n` elements and the rest, where there are as many.
unfoldable pub split_at : ℕ → Bytes → Option (Bytes × Bytes)
split_at zero rest = some ([], rest)
split_at (suc n) [] = none
split_at (suc n) (b ∷ rest) = elim (split_at n rest) [
  | none ↦ none
  | some (front, back) ↦ some (b ∷ front, back)
]

unfoldable pub body_of : ℕ → Bytes → Result NativeHostError (Option (Bytes × Bytes))
unfolding split_at
body_of len rest =
    if ltb max_native_message_len len then err (too_large len) else elim (split_at len rest) [
      | none ↦ err body_error
      | some (body, back) ↦ ok (some (body, back))
    ]

-- The message at the head of the input, with the input after it.
unfoldable pub message_of : Bytes → Result NativeHostError (Option (Bytes × Bytes))
unfolding body_of
message_of [] = ok none
message_of (a ∷ []) = err prefix_error
message_of (a ∷ b ∷ []) = err prefix_error
message_of (a ∷ b ∷ c ∷ []) = err prefix_error
message_of (a ∷ b ∷ c ∷ e ∷ rest) = body_of (from_le_bytes (a ∷ b ∷ c ∷ e ∷ [])) rest

abbrev consed : ℕ → Bytes × Bytes → Bytes × Bytes
consed b (front, back) = (b ∷ front, back)

cons_split :
    {n b : ℕ} {xs front back : Bytes} (p : Bytes × Bytes)
    → (length (p.0) ≡ n) × (p.0 ++ p.1 ≡ xs)
    → some (consed b p) ≡ some (front, back)
    → (length front ≡ suc n) × (front ++ back ≡ b ∷ xs)
cons_split p (len, cat) h = (ground arith, cc)

pub split_at-some :
    (n : ℕ) (xs : Bytes) {front back : Bytes}
    → split_at n xs ≡ some (front, back)
    → (length front ≡ n) × (front ++ back ≡ xs)
unfolding split_at
split_at-some zero xs h = ground arith
split_at-some (suc n) [] h = cc
split_at-some (suc n) (b ∷ xs) h = elim (Option-cases (split_at n xs)) [
  | inl e ↦ absurd (ground (arith, e))
  | inr (p, e) ↦ cons_split p (split_at-some n xs e) (rw (split_at, e) at h)
]

some_of :
    {p q : Bytes × Bytes}
    → Path (Result NativeHostError (Option (Bytes × Bytes))) (ok (some p)) (ok (some q))
    → p ≡ q
some_of h = cc

same_parts :
    {len : ℕ} {input body rest : Bytes} (p : Bytes × Bytes)
    → p ≡ (body, rest)
    → ltb max_native_message_len len ≡ false
    → (length (p.0) ≡ len) × (p.0 ++ p.1 ≡ input)
    → (length body ≡ len) × (length body ≤ max_native_message_len) × (body ++ rest ≡ input)
same_parts p same small (long, cat) =
    (ground (arith, same, long), ground (arith, same, long, small), cc)

pub body_of-eq-ok :
    (len : ℕ) (input : Bytes) {body rest : Bytes}
    → body_of len input ≡ ok (some (body, rest))
    → (length body ≡ len) × (length body ≤ max_native_message_len) × (body ++ rest ≡ input)
unfolding body_of
body_of-eq-ok len input h = elim (Bool-cases (ltb max_native_message_len len)) [
  | inl large ↦ absurd (ground (arith, large, h))
  | inr small ↦ elim (Option-cases (split_at len input)) [
    | inl e ↦ absurd (ground (arith, small, e, h))
    | inr (p, e) ↦
        same_parts p (some_of (rw (body_of, small, e) at h)) small (split_at-some len input e)
  ]
]

split_at-none : (n : ℕ) (xs : Bytes) → split_at n xs ≡ none → length xs < n
unfolding split_at
split_at-none zero xs h = cc
split_at-none (suc n) [] h = omega arith
split_at-none (suc n) (b ∷ xs) h = elim (Option-cases (split_at n xs)) [
  | inl e ↦ ground (arith, split_at-none n xs e)
  | inr (p, e) ↦ absurd (ground (arith, e))
]

pub split_at-append : (xs ys : Bytes) → split_at (length xs) (xs ++ ys) ≡ some (xs, ys)
unfolding split_at
split_at-append [] ys = refl
split_at-append (x ∷ xs) ys = rw (split_at-append xs ys) refl

module _ {r : Reader} (d : Delivers r) where
  -- What a read has done, with the input that is left in place of the stream.
  unfoldable pub observe :
      Result NativeHostError (Option Bytes) × r.Stream
      → Result NativeHostError (Option (Bytes × Bytes))
  observe (err e, s) = err e
  observe (ok none, s) = ok none
  observe (ok (some body), s) = ok (some (body, d.remaining s))

  exact :
      (len : ℕ) (s s1 : r.Stream) (body back : Bytes)
      → ltb max_native_message_len len ≡ false
      → split_at len (d.remaining s) ≡ some (body, back)
      → r.read_exact len s ≡ (ok body, s1)
      → d.remaining s1 ≡ back
      → observe (read_body r len s) ≡ body_of len (d.remaining s)
  unfolding observe read_body finish_body body_of
  exact len s s1 body back fits e got left =
      rw (fits, got, e, left, read_body, finish_body, body_of) refl

  observe-finish_body :
      (len : ℕ) (s : r.Stream)
      → ltb max_native_message_len len ≡ false
      → observe (read_body r len s) ≡ body_of len (d.remaining s)
  unfolding observe read_body finish_body body_of
  observe-finish_body len s fits = elim (Option-cases (split_at len (d.remaining s))) [
    | inl e ↦
        let (text, s1, cut) = d.short_law len s (split_at-none len (d.remaining s) e) in
        rw (fits, cut, e, read_body, finish_body, body_of) refl
    | inr ((body, back), e) ↦
        let (len_body, cat) = split_at-some len (d.remaining s) e in
        let (s1, got, left) = d.exact_law s body back (sym cat) in
        exact len s s1 body back fits e (subst (λ n. r.read_exact n s ≡ (ok body, s1)) len_body got)
          left
  ]

  observe-read_body :
      (len : ℕ) (s : r.Stream) → observe (read_body r len s) ≡ body_of len (d.remaining s)
  unfolding read_body observe body_of
  observe-read_body len s = elim (Bool-cases (ltb max_native_message_len len)) [
    | inl large ↦ rw (large, read_body, body_of) refl
    | inr fits ↦ observe-finish_body len s fits
  ]

  cut_message_of :
      (whole : Bytes) → whole ≢ [] → length whole < 4 → err prefix_error ≡ message_of whole
  unfolding message_of
  cut_message_of [] ne short = absurd (ne refl)
  cut_message_of (x ∷ []) ne short = refl
  cut_message_of (x ∷ y ∷ []) ne short = refl
  cut_message_of (x ∷ y ∷ z ∷ []) ne short = refl
  cut_message_of (x ∷ y ∷ z ∷ w ∷ more) ne short = absurd (omega (arith, short))

  -- Four bytes of the prefix decide the rest.
  observe-after_prefix :
      {whole : Bytes} {answer : Result NativeHostError (Option Bytes) × r.Stream}
      → PrefixRead d whole answer
      → observe (after_prefix r answer) ≡ message_of whole
  unfolding after_prefix observe message_of
  observe-after_prefix (full [] s four e) = absurd (omega (arith, four))
  observe-after_prefix (full (x ∷ []) s four e) = absurd (omega (arith, four))
  observe-after_prefix (full (x ∷ y ∷ []) s four e) = absurd (omega (arith, four))
  observe-after_prefix (full (x ∷ y ∷ z ∷ []) s four e) = absurd (omega (arith, four))
  observe-after_prefix (full (x ∷ y ∷ z ∷ w ∷ []) s four e) =
      subst
        (λ whole. observe (read_body r (from_le_bytes (x ∷ y ∷ z ∷ w ∷ [])) s) ≡ message_of whole) e
        (observe-read_body (from_le_bytes (x ∷ y ∷ z ∷ w ∷ [])) s)
  observe-after_prefix (full (x ∷ y ∷ z ∷ w ∷ v ∷ more) s four e) = absurd (omega (arith, four))
  observe-after_prefix (at_end s empty) = rw empty refl
  observe-after_prefix (cut_short s some_left short) = cut_message_of _ some_left short

  -- Reading a message does what the framing of the whole input says: in whatever pieces the input arrives, the answer is the message at its head, the end of the input, or the error for a prefix that is cut short, a length above the limit or a body that is cut short; and after a message the stream stands right behind it.
  pub read_native_message-message_of :
      (s : r.Stream) → observe (read_native_message r s) ≡ message_of (d.remaining s)
  unfolding read_native_message
  read_native_message-message_of s =
      observe-after_prefix (read_prefix-PrefixRead d 4 [] s (omega arith) (omega arith))
