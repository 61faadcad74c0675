-- ===== src/Native/Served/Ends.antt =====
-- `run_native_host` ends on every input.
use kunkka.Base.{
  ℕ, zero, suc, ◌≤◌, ◌<◌, ◌≡◌, ◌≢◌, sym, ap, Option, none, some, [], ◌∷◌, length, length-append,
  arith,
}
use kunkka.Base.Fallible.{Result, ok, err}
use kunkka.Ipc.{Bytes}
use kunkka.Native.{NativeHostError}
use kunkka.Native.Messaging.{from_le_bytes, read_native_message}
use kunkka.Native.Bridge.{NativeHostSession}
use kunkka.Native.Host.{
  Setting, NativeHost, Ended, finish_unread, after_write, turn, run_native_host,
}
use kunkka.Native.Framing.Prefix.{Delivers}
use kunkka.Native.Framing.Read.{
  message_of, body_of, body_of-eq-ok, observe, read_native_message-message_of,
}

body_of-shorter :
    (len : ℕ) (input : Bytes) {body rest : Bytes}
    → body_of len input ≡ ok (some (body, rest))
    → length rest ≤ length input
unfolding body_of
body_of-shorter len input {body} {rest} h =
    let (long, fits, cat) = body_of-eq-ok len input h in
    omega (arith, length-append body rest, ap length cat)

message_of-shorter :
    (input : Bytes) {body rest : Bytes}
    → message_of input ≡ ok (some (body, rest))
    → length rest < length input
unfolding message_of
message_of-shorter [] h = cc
message_of-shorter (a ∷ []) h = cc
message_of-shorter (a ∷ b ∷ []) h = cc
message_of-shorter (a ∷ b ∷ c ∷ []) h = cc
message_of-shorter (a ∷ b ∷ c ∷ e ∷ rest) h =
    omega (arith, body_of-shorter (from_le_bytes (a ∷ b ∷ c ∷ e ∷ [])) rest h)

module _ {V : Type 0} {h : Setting V} (d : Delivers h.reader) where
  unread-Ends : (e : NativeHostError) (n : NativeHost h) → (finish_unread h e n).0 ≢ none
  unfolding finish_unread
  unread-Ends e n = elim e as (λ failure. (finish_unread h failure n).0 ≢ none) [
    | NativeHostError.invalid_request message ↦ λ out. cc
    | other ↦ λ out. cc
  ]

  after_write-Ends :
      (loop : NativeHost h → Ended h) (stream : h.reader.Stream)
      (session : NativeHostSession h.core)
      (answer : Result NativeHostError (Unit {0}) × h.writer.Sink)
      → ((sink : h.writer.Sink)
          → (loop (record { stream = stream; sink = sink; session = session })).0 ≢ none)
      → (after_write h loop stream session answer).0 ≢ none
  unfolding after_write
  after_write-Ends loop stream session (ok done, sink) ends = ends sink
  after_write-Ends loop stream session (err e, sink) ends = λ same. cc

  turn-Ends :
      (loop : NativeHost h → Ended h) (n : NativeHost h)
      (answer : Result NativeHostError (Option Bytes) × h.reader.Stream)
      → observe d answer ≡ message_of (d.remaining n.stream)
      → ((later : NativeHost h)
          → length (d.remaining later.stream) < length (d.remaining n.stream)
          → (loop later).0 ≢ none)
      → (turn h loop answer n).0 ≢ none
  unfolding turn observe
  turn-Ends loop n (err e, stream) same ends = unread-Ends e (record n { stream = stream })
  turn-Ends loop n (ok none, stream) same ends = λ out. cc
  turn-Ends loop n (ok (some message_bytes), stream) same ends =
      after_write-Ends loop stream _ _
        (λ sink. ends _ (message_of-shorter (d.remaining n.stream) (sym same)))

  -- Whatever bytes the browser sends, in whatever pieces, and whatever the core, the JSON parser and the output do, the loop ends: it takes at most as many turns as the input has bytes, and one more.
  pub run_native_host-Ends :
      (fuel : ℕ) (n : NativeHost h)
      → length (d.remaining n.stream) < fuel
      → (run_native_host h fuel n).0 ≢ none
  unfolding run_native_host
  run_native_host-Ends zero n enough = absurd (omega (arith, enough))
  run_native_host-Ends (suc fuel) n enough =
      turn-Ends (run_native_host h fuel) n (read_native_message h.reader n.stream)
        (read_native_message-message_of d n.stream)
        (λ later shorter. run_native_host-Ends fuel later (omega (arith, shorter, enough)))
