-- ===== src/Native/Host.antt =====
-- crates/kunkka-native-host/src/host.rs: `run_native_host`, the loop that reads messages until the
-- browser closes its end. The fuel is the number of turns that the loop may take; `none` says that it
-- was used up.
use kunkka.Base.{ℕ, zero, suc, String, Option, none, some, if◌then◌else◌}
use kunkka.Base.Text.Trim.{contains_text}
use kunkka.Base.Fallible.{Result, ok, err}
use kunkka.Ipc.{Bytes}
use kunkka.Native.{
  NativeHostError, native_display, invalid_request, code_text, SerdeJson, NativeRequest,
  NativeResponse, decode_request, error_response, extract_request_id,
}
use kunkka.Native.Messaging.{Reader, Writer, read_native_message, write_native_message}
use kunkka.Native.Bridge.{Core, NativeHostSession, handle_request}

-- What `run_native_host` is given: its streams, and the JSON parser at the types it reads and writes.
pub record Setting (V : Type 0) : Type 1 where
  pub core : Core V
  pub reader : Reader
  pub writer : Writer
  pub requests : SerdeJson (NativeRequest V)
  pub responses : SerdeJson (NativeResponse V)
  pub id_of : V → Option String

unfoldable pub normalize_invalid_request_message : NativeHostError → String
normalize_invalid_request_message e = elim e [
  | NativeHostError.json text ↦
      if contains_text "missing field `id`" text then "missing request id" else text
  | NativeHostError.invalid_request message ↦ message
  | other ↦ native_display other
]

module _ {V : Type 0} (h : Setting V) where
  pub record NativeHost : Type 0 where
    pub stream : h.reader.Stream
    pub sink : h.writer.Sink
    pub session : NativeHostSession h.core

  -- The answer to one message.
  unfoldable pub respond :
      Bytes → NativeHostSession h.core → NativeResponse V × NativeHostSession h.core
  unfolding normalize_invalid_request_message
  respond message_bytes session = elim (decode_request h.requests message_bytes) [
    | ok request ↦ handle_request h.core request session
    | err e ↦ (
      error_response (extract_request_id h.core.values h.id_of message_bytes)
          (code_text invalid_request) (normalize_invalid_request_message e),
      session,
    )
  ]

  abbrev pub Ended : Type 0
  Ended = Option (Result NativeHostError (Unit {0})) × NativeHost

  abbrev pub write_response :
      NativeResponse V → h.writer.Sink → Result NativeHostError (Unit {0}) × h.writer.Sink
  write_response response sink = write_native_message h.writer h.responses response sink

  -- A failed read ends the loop; one that the extension caused is answered first.
  unfoldable pub finish_unread : NativeHostError → NativeHost → Ended
  finish_unread e n = elim e [
    | NativeHostError.invalid_request message ↦
        let (answer, sink) =
          write_response (error_response none (code_text invalid_request) message) n.sink in
        (some answer, record n { sink = sink })
    | other ↦ (some (err other), n)
  ]

  -- The end of a turn, with the rest of the loop.
  unfoldable pub after_write :
      (NativeHost → Ended)
      → h.reader.Stream
      → NativeHostSession h.core
      → Result NativeHostError (Unit {0}) × h.writer.Sink
      → Ended
  after_write loop stream session (ok _, sink) =
      loop (record { stream = stream; sink = sink; session = session })
  after_write loop stream session (err e, sink) =
      (some (err e), record { stream = stream; sink = sink; session = session })

  abbrev pub answer_message :
      (NativeHost → Ended)
      → h.reader.Stream
      → h.writer.Sink
      → NativeResponse V × NativeHostSession h.core
      → Ended
  answer_message loop stream sink (response, session) =
      after_write loop stream session (write_response response sink)

  -- One turn, for what was read.
  unfoldable pub turn :
      (NativeHost → Ended)
      → Result NativeHostError (Option Bytes) × h.reader.Stream
      → NativeHost
      → Ended
  unfolding finish_unread after_write
  turn loop (err e, stream) n = finish_unread e (record n { stream = stream })
  turn loop (ok none, stream) n = (some (ok tt), record n { stream = stream })
  turn loop (ok (some message_bytes), stream) n =
      answer_message loop stream n.sink (respond message_bytes n.session)

  unfoldable pub run_native_host : (fuel : ℕ) → NativeHost → Ended
  unfolding turn
  run_native_host zero n = (none, n)
  run_native_host (suc fuel) n =
      turn (run_native_host fuel) (read_native_message h.reader n.stream) n
