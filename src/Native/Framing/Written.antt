-- ===== src/Native/Framing/Written.antt =====
-- What `write_native_message` leaves for a reader.
use kunkka.Base.{
  ℕ, ◌^◌, ◌≤◌, ◌<◌, ◌≡◌, refl, subst, ◌∙◌, ap, sym, inl, inr, false, some, [], ◌∷◌, ◌++◌, ltb,
  length, arith, Bool-cases,
}
use mathlib.Core.List.{append_assoc, append_cancel_left}
use kunkka.Base.Fallible.{ok}
use kunkka.Ipc.{Bytes}
use kunkka.Native.{SerdeJson}
use kunkka.Native.Messaging.{
  Reader, Writer, max_native_message_len, from_le_bytes, le_bytes, to_le_bytes, write_body,
  write_native_message, read_native_message,
}
use kunkka.Native.Framing.Prefix.{Delivers}
use kunkka.Native.Framing.Read.{
  message_of, body_of, split_at-append, body_of-eq-ok, observe, read_native_message-message_of,
}

-- A writer with no failure of its own: its output is what was written, in order.
pub record Collects (w : Writer) : Type 0 where
  pub written : w.Sink → Bytes
  pub write_law :
      (bytes : Bytes) (sink : w.Sink)
      → (sink1 : w.Sink) × (w.write_all bytes sink ≡ (ok tt, sink1))
        × (written sink1 ≡ written sink ++ bytes)
  pub flush_law :
      (sink : w.Sink)
      → (sink1 : w.Sink) × (w.flush sink ≡ (ok tt, sink1)) × (written sink1 ≡ written sink)

-- A body with its length in front.
abbrev pub framed : Bytes → Bytes
framed body = to_le_bytes (length body) ++ body

from_le_bytes-to_le_bytes : (n : ℕ) → n < 2 ^ 32 → from_le_bytes (to_le_bytes n) ≡ n
unfolding from_le_bytes to_le_bytes le_bytes
from_le_bytes-to_le_bytes n h = omega (arith, h)

body_of-append :
    (body rest : Bytes)
    → length body ≤ max_native_message_len
    → body_of (length body) (body ++ rest) ≡ ok (some (body, rest))
unfolding body_of
body_of-append body rest fits = elim (Bool-cases (ltb max_native_message_len (length body))) [
  | inl large ↦ absurd (ground (arith, large, fits))
  | inr small ↦ rw (small, split_at-append body rest, body_of) refl
]

pub message_of-framed :
    (body rest : Bytes)
    → length body ≤ max_native_message_len
    → message_of (framed body ++ rest) ≡ ok (some (body, rest))
unfolding message_of to_le_bytes le_bytes
message_of-framed body rest fits =
    subst (λ n. body_of n (body ++ rest) ≡ ok (some (body, rest)))
      (sym (from_le_bytes-to_le_bytes (length body) (omega (arith, fits))))
      (body_of-append body rest fits)

module _ {w : Writer} (o : Collects w) where
  steps :
      {T : Type 0} (serialize : SerdeJson T) (value : T) (body : Bytes) (sink s1 s2 s3 : w.Sink)
      → serialize.to_vec value ≡ ok body
      → ltb max_native_message_len (length body) ≡ false
      → w.write_all (to_le_bytes (length body)) sink ≡ (ok tt, s1)
      → w.write_all body s1 ≡ (ok tt, s2)
      → w.flush s2 ≡ (ok tt, s3)
      → write_native_message w serialize value sink ≡ (ok tt, s3)
  unfolding write_native_message write_body
  steps serialize value body sink s1 s2 s3 encoded small e1 e2 e3 =
      rw (encoded, small, e1, e2, e3, write_native_message, write_body) refl

  -- A value whose JSON is within the limit is written as one frame, behind what was there.
  pub write_native_message-framed :
      {T : Type 0} (serialize : SerdeJson T) (value : T) (body : Bytes) (sink : w.Sink)
      → serialize.to_vec value ≡ ok body
      → length body ≤ max_native_message_len
      → (sink1 : w.Sink) × (write_native_message w serialize value sink ≡ (ok tt, sink1))
        × (o.written sink1 ≡ o.written sink ++ framed body)
  write_native_message-framed serialize value body sink encoded fits =
      let (s1, e1, w1) = o.write_law (to_le_bytes (length body)) sink in
      let (s2, e2, w2) = o.write_law body s1 in
      let (s3, e3, w3) = o.flush_law s2 in
      (
        s3,
        steps serialize value body sink s1 s2 s3 encoded (ground (arith, fits)) e1 e2 e3,
        w3
            ∙ w2
            ∙ ap (λ t. t ++ body) w1
            ∙ append_assoc (o.written sink) (to_le_bytes (length body)) body,
      )

  -- What is written is read back: for a value whose JSON is at most 1 MiB long, the write succeeds, and a reader whose input is what was added to the output, with more behind it, gets exactly that JSON and stands right behind it.
  pub read_native_message-write_native_message :
      {r : Reader} (d : Delivers r) {T : Type 0} (serialize : SerdeJson T) (value : T)
      (body added rest : Bytes) (sink : w.Sink) (s : r.Stream)
      → serialize.to_vec value ≡ ok body
      → length body ≤ max_native_message_len
      → o.written ((write_native_message w serialize value sink).1) ≡ o.written sink ++ added
      → d.remaining s ≡ added ++ rest
      → ((write_native_message w serialize value sink).0 ≡ ok tt)
        × (observe d (read_native_message r s) ≡ ok (some (body, rest)))
  read_native_message-write_native_message d serialize value body added rest sink s encoded fits
        grown input =
      let (sink1, e, framed_grown) =
        write_native_message-framed serialize value body sink encoded fits in
      let added_framed =
        append_cancel_left (o.written sink) added (framed body)
          (sym grown ∙ ap (λ t. o.written (t.1)) e ∙ framed_grown) in
      (
        ap (λ t. t.0) e,
        read_native_message-message_of d s
            ∙ ap message_of (input ∙ ap (λ t. t ++ rest) added_framed)
            ∙ message_of-framed body rest fits,
      )

module _ {r : Reader} (d : Delivers r) where
  message_of-bounded :
      (whole : Bytes) {body back : Bytes}
      → message_of whole ≡ ok (some (body, back))
      → length body ≤ max_native_message_len
  unfolding message_of
  message_of-bounded [] h = cc
  message_of-bounded (a ∷ []) h = cc
  message_of-bounded (a ∷ b ∷ []) h = cc
  message_of-bounded (a ∷ b ∷ c ∷ []) h = cc
  message_of-bounded (a ∷ b ∷ c ∷ e ∷ rest) h =
      omega (arith, body_of-eq-ok (from_le_bytes (a ∷ b ∷ c ∷ e ∷ [])) rest h)

  -- No message longer than 1 MiB is handed to the host, whatever length its prefix declares.
  pub read_native_message-bounded :
      (s s1 : r.Stream) (body : Bytes)
      → read_native_message r s ≡ (ok (some body), s1)
      → length body ≤ max_native_message_len
  unfolding observe
  read_native_message-bounded s s1 body h =
      message_of-bounded (d.remaining s)
        (sym (read_native_message-message_of d s) ∙ ap (observe d) h)
