-- ===== src/Native/Framing/Prefix.antt =====
-- The loop that reads the length prefix, on a reader that delivers its input in pieces of any size.
use kunkka.Base.{
  ℕ, zero, suc, ◌+◌, ◌-◌, ◌≤◌, ◌<◌, ◌≡◌, ◌≢◌, refl, subst, ◌∙◌, ap, inl, inr, true, Option, none,
  some, [], ◌∷◌, ◌++◌, ltb, length, length-append, arith, Bool-cases,
}
use mathlib.Core.List.{append-nil, append_assoc}
use kunkka.Base.Fallible.{Result, ok, err}
use kunkka.Ipc.{Bytes}
use kunkka.Native.{unexpected_eof, NativeHostError}
use kunkka.Native.Messaging.{Reader, finish_read, read_prefix, prefix_error}

-- What `std::io::Read` documents, for a reader with no failure of its own: a read hands over the next
-- bytes of the input, at most as many as asked and none only at its end; `read_exact` hands over all
-- that was asked or fails with `UnexpectedEof`.
pub record Delivers (r : Reader) : Type 0 where
  pub remaining : r.Stream → Bytes
  pub read_law :
      (n : ℕ) (s : r.Stream)
      → 0 < n
      → (bytes : Bytes) × (s1 : r.Stream) × (r.read n s ≡ (ok bytes, s1))
        × (length bytes ≤ n)
        × (bytes ++ remaining s1 ≡ remaining s)
        × (bytes ≡ [] → remaining s ≡ [])
  pub exact_law :
      (s : r.Stream) (body rest : Bytes)
      → remaining s ≡ body ++ rest
      → (s1 : r.Stream) × (r.read_exact (length body) s ≡ (ok body, s1)) × (remaining s1 ≡ rest)
  pub short_law :
      (n : ℕ) (s : r.Stream)
      → length (remaining s) < n
      → (text : _) × (s1 : r.Stream) × (r.read_exact n s ≡ (err (unexpected_eof text), s1))

module _ {r : Reader} (d : Delivers r) where
  -- The three ends of the loop, of an input `whole` with the bytes already read.
  pub data PrefixRead (whole : Bytes)
      : Result NativeHostError (Option Bytes) × r.Stream → Type 0 where
    full :
        (len_bytes : Bytes) (s : r.Stream)
        → length len_bytes ≡ 4
        → len_bytes ++ d.remaining s ≡ whole
        → PrefixRead whole (ok (some len_bytes), s)
    at_end : (s : r.Stream) → whole ≡ [] → PrefixRead whole (ok none, s)
    cut_short :
        (s : r.Stream) → whole ≢ [] → length whole < 4 → PrefixRead whole (err prefix_error, s)

  -- One turn of the loop, for what a read has handed over.
  turn :
      (fuel : ℕ) (acc : Bytes) (s s1 : r.Stream) (bytes : Bytes)
      → ltb (length acc) 4 ≡ true
      → r.read (4 - length acc) s ≡ (ok bytes, s1)
      → bytes ++ d.remaining s1 ≡ d.remaining s
      → (bytes ≡ [] → d.remaining s ≡ [])
      → (0 < length bytes
          → PrefixRead ((acc ++ bytes) ++ d.remaining s1) (read_prefix r fuel (acc ++ bytes) s1))
      → PrefixRead (acc ++ d.remaining s) (read_prefix r (suc fuel) acc s)
  unfolding read_prefix finish_read
  turn fuel [] s s1 [] more e split none_left go_on =
      rw (e, none_left refl, read_prefix, finish_read) (at_end s1 refl)
  turn fuel (a ∷ acc) s s1 [] more e split none_left go_on =
      rw (more, e, none_left refl, append-nil (a ∷ acc), read_prefix, finish_read)
        (cut_short s1 (λ e. cc) (ground (arith, more)))
  turn fuel acc s s1 (b ∷ bytes) more e split none_left go_on =
      rw (more, e, read_prefix, finish_read)
        (subst (λ w. PrefixRead w (read_prefix r fuel (acc ++ b ∷ bytes) s1))
          (append_assoc acc (b ∷ bytes) (d.remaining s1) ∙ ap (λ t. acc ++ t) split)
          (go_on (omega arith)))

  pub read_prefix-PrefixRead :
      (fuel : ℕ) (acc : Bytes) (s : r.Stream)
      → length acc ≤ 4
      → 4 ≤ length acc + fuel
      → PrefixRead (acc ++ d.remaining s) (read_prefix r fuel acc s)
  unfolding read_prefix
  read_prefix-PrefixRead zero acc s le enough = full acc s (omega arith) refl
  read_prefix-PrefixRead (suc fuel) acc s le enough = elim (Bool-cases (ltb (length acc) 4)) [
    | inr done ↦ rw (done, read_prefix) (full acc s (ground arith) refl)
    | inl more ↦
        let (bytes, s1, e, few, split, none_left) = d.read_law (4 - length acc) s (ground arith) in
        turn fuel acc s s1 bytes more e split none_left (λ some_read.
          read_prefix-PrefixRead fuel (acc ++ bytes) s1
            (ground (arith, length-append acc bytes, few))
            (ground (arith, length-append acc bytes, some_read)))
  ]
