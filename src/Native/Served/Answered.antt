-- ===== src/Native/Served/Answered.antt =====
-- `run_native_host` against the answers to a list of messages.
use kunkka.Base.{
  ℕ, zero, suc, ◌≤◌, ◌<◌, ◌≡◌, refl, sym, ap, ◌∙◌, subst, Option, none, some, List, [], ◌∷◌, ◌++◌,
  All, length, arith,
}
use mathlib.Core.List.{append-nil, append_assoc}
use kunkka.Base.Fallible.{Result, ok, err}
use kunkka.Ipc.{Bytes}
use kunkka.Native.{NativeHostError, NativeResponse}
use kunkka.Native.Messaging.{max_native_message_len, read_native_message}
use kunkka.Native.Bridge.{NativeHostSession}
use kunkka.Native.Host.{
  Setting, NativeHost, Ended, respond, after_write, answer_message, turn, run_native_host,
}
use kunkka.Native.Framing.Prefix.{Delivers}
use kunkka.Native.Framing.Read.{message_of, observe, read_native_message-message_of}
use kunkka.Native.Framing.Written.{Collects, framed, message_of-framed, write_native_message-framed}

-- The bytes of a list of messages.
abbrev pub frames : List Bytes → Bytes
frames [] = []
frames (body ∷ bodies) = framed body ++ frames bodies

abbrev pub Fits : Bytes → Type 0
Fits body = length body ≤ max_native_message_len

module _ {V : Type 0} (h : Setting V) where
  -- The responses to a list of messages, one each, and the session after them.
  abbrev pub answers : List Bytes → NativeHostSession h.core → List (NativeResponse V)
  answers [] s = []
  answers (message ∷ messages) s =
      (respond h message s).0 ∷ answers messages ((respond h message s).1)

  abbrev pub session_after : List Bytes → NativeHostSession h.core → NativeHostSession h.core
  session_after [] s = s
  session_after (message ∷ messages) s = session_after messages ((respond h message s).1)

  -- Responses with their JSON, within the limit.
  pub data Encodes : List (NativeResponse V) → List Bytes → Type 0 where
    nothing : Encodes [] []
    one_more :
        (response : NativeResponse V) (body : Bytes) (responses : List (NativeResponse V))
        (bodies : List Bytes)
        → h.responses.to_vec response ≡ ok body
        → Fits body
        → Encodes responses bodies
        → Encodes (response ∷ responses) (body ∷ bodies)

module _ {V : Type 0} {h : Setting V} (d : Delivers h.reader) (o : Collects h.writer) where
  -- The loop ended without error, with these bodies added to an output and in this session.
  abbrev Done :
      (before : Bytes) (bodies : List Bytes) (session : NativeHostSession h.core) → Ended h → Type 0
  Done before bodies session t =
      (t.0 ≡ some (ok tt))
      × (o.written (t.1.sink) ≡ before ++ frames bodies)
      × (t.1.session ≡ session)

  end-Done :
      (loop : NativeHost h → Ended h) (n : NativeHost h)
      (answer : Result NativeHostError (Option Bytes) × h.reader.Stream)
      → observe d answer ≡ ok none
      → Done (o.written n.sink) [] n.session (turn h loop answer n)
  unfolding turn observe
  end-Done loop n (err e, stream) same = cc
  end-Done loop n (ok none, stream) same = (refl, sym (append-nil (o.written n.sink)), refl)
  end-Done loop n (ok (some body), stream) same = cc

  -- A turn that reads a message is the rest of the loop after its answer.
  turn-message :
      (loop : NativeHost h → Ended h) (n : NativeHost h) (message rest : Bytes)
      (answer : Result NativeHostError (Option Bytes) × h.reader.Stream)
      → observe d answer ≡ ok (some (message, rest))
      → (stream : h.reader.Stream) × (d.remaining stream ≡ rest)
        × (turn h loop answer n ≡ answer_message h loop stream n.sink (respond h message n.session))
  unfolding turn observe
  turn-message loop n message rest (err e, stream) same = cc
  turn-message loop n message rest (ok none, stream) same = cc
  turn-message loop n message rest (ok (some body), stream) same =
      (stream, cc, ap (λ m. answer_message h loop stream n.sink (respond h m n.session)) cc)

  answer_message-Done :
      (loop : NativeHost h → Ended h) (n : NativeHost h) (message body : Bytes)
      (stream : h.reader.Stream) (bodies : List Bytes) (session : NativeHostSession h.core)
      → h.responses.to_vec ((respond h message n.session).0) ≡ ok body
      → Fits body
      → ((sink : h.writer.Sink)
          → Done (o.written sink) bodies session (
              loop (record {
                stream = stream;
                sink = sink;
                session = (respond h message n.session).1;
              })))
      → Done
          (o.written n.sink)
          (body ∷ bodies)
          session
          (answer_message h loop stream n.sink (respond h message n.session))
  unfolding after_write
  answer_message-Done loop n message body stream bodies session encoded fits later =
      let (sink, written, grown) =
        write_native_message-framed o h.responses ((respond h message n.session).0) body n.sink
          encoded fits in
      let (ended, output, last) = later sink in
      subst
        (λ t.
          Done (o.written n.sink) (body ∷ bodies) session
            (after_write h loop stream ((respond h message n.session).1) t))
        (sym written)
        (
          ended,
          output
              ∙ ap (λ t. t ++ frames bodies) grown
              ∙ append_assoc (o.written n.sink) (framed body) (frames bodies),
          last,
        )

  -- On an input of well-framed messages the loop answers each of them in turn: it ends without error when the input does, the output has grown by one frame for each message, in order, with the JSON of the answer that the session gives to it after the messages before, and the session is the one that these answers leave. The JSON of each answer must be at most 1 MiB long.
  pub run_native_host-answers :
      (messages bodies : List Bytes) (fuel : ℕ) (n : NativeHost h)
      → d.remaining n.stream ≡ frames messages
      → All Fits messages
      → Encodes h (answers h messages n.session) bodies
      → length messages < fuel
      → ((run_native_host h fuel n).0 ≡ some (ok tt))
        × (o.written ((run_native_host h fuel n).1.sink) ≡ o.written n.sink ++ frames bodies)
        × ((run_native_host h fuel n).1.session ≡ session_after h messages n.session)
  unfolding run_native_host message_of
  run_native_host-answers messages bodies zero n input fit encodes enough =
      absurd (omega (arith, enough))
  run_native_host-answers [] bodies (suc fuel) n input fit nothing enough =
      end-Done (run_native_host h fuel) n (read_native_message h.reader n.stream)
        (read_native_message-message_of d n.stream ∙ ap message_of input)
  run_native_host-answers (message ∷ messages) bodies (suc fuel) n input (fit, fits)
        (one_more response body responses later encoded small encodes) enough =
      let (stream, left, same) =
        turn-message (run_native_host h fuel) n message (frames messages)
          (read_native_message h.reader n.stream)
          (read_native_message-message_of d n.stream
            ∙ ap message_of input
            ∙ message_of-framed message (frames messages) fit) in
      subst
        (Done (o.written n.sink) (body ∷ later) (session_after h (message ∷ messages) n.session))
        (sym same)
        (answer_message-Done (run_native_host h fuel) n message body stream later _ encoded small
          (λ sink.
            run_native_host-answers messages later fuel
              (record { stream = stream; sink = sink; session = (respond h message n.session).1 })
              left fits encodes (omega (arith, enough))))
