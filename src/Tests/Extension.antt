-- ===== src/Tests/Extension.antt =====
-- Tests of crates/kunkka-native-host: a core that answers one ping, a browser that delivers its input
-- byte by byte, and an output that keeps what is written.
use kunkka.Base.{
  ℕ, ◌≤◌, ◌<◌, ◌≡◌, ◌≢◌, refl, zero, suc, String, none, some, [], ◌∷◌, ◌++◌, length, arith,
}
use kunkka.Base.Fallible.{Result, ok, err, is_ok}
use kunkka.Ipc.{Frame, Payload, Bytes, Postcard}
use kunkka.Protocol
use kunkka.Protocol.{
  CoreControlMessage, FrontendDispatchMessage, FrontendDispatchRequest, encode_control_message,
  decode_control_message,
}
use kunkka.Native
use kunkka.Native.{
  IoError, unexpected_eof, NativeHostError, SerdeJson, NativeCommand, NativeRequest, NativeResponse,
  success_response, decode_request, check_command,
}
use kunkka.Native.Messaging.{
  Reader, Writer, from_le_bytes, to_le_bytes, le_bytes, read_native_message, write_native_message,
  write_body, read_prefix, after_prefix, read_body, finish_body, max_native_message_len,
}
use kunkka.Native.Bridge
use kunkka.Native.Bridge.{
  NativeHostSession, handle_request, send_core_control, send_frontend_dispatch, u128_mod,
  send_core_control_on_cached_connection, exchange, send_on, finish_send, finish_recv,
  read_response, advance_request_id,
}
use kunkka.Native.Host.{Setting, NativeHost, run_native_host}
use kunkka.Native.Framing.Prefix.{Delivers}
use kunkka.Native.Framing.Read.{message_of, observe, read_native_message-message_of}
use kunkka.Native.Framing.Written.{
  Collects, read_native_message-write_native_message, read_native_message-bounded,
}
use kunkka.Native.Session.Reply.{Reply, handle_request-Reply}
use kunkka.Native.Session.Connection.{is_some, send-Tracks}
use kunkka.Native.Session.Exchange.{Exchanged, control_payload, send_core_control-Exchanged}
use kunkka.Native.Served.Ends.{run_native_host-Ends}
use kunkka.Native.Served.Answered.{
  frames, answers, session_after, Encodes, nothing, one_more, run_native_host-answers,
}
use kunkka.Tests.Samples.{sockets, payload_of, dispatch_codec, listing}

abbrev read_one : ℕ → Bytes → Result IoError Bytes × Bytes
read_one n [] = (ok [], [])
read_one n (b ∷ rest) = (ok (b ∷ []), rest)

abbrev cons_ok : ℕ → Result IoError Bytes × Bytes → Result IoError Bytes × Bytes
cons_ok b (ok body, rest) = (ok (b ∷ body), rest)
cons_ok b (err e, rest) = (err e, rest)

abbrev read_all : ℕ → Bytes → Result IoError Bytes × Bytes
read_all zero rest = (ok [], rest)
read_all (suc n) [] = (err (unexpected_eof "failed to fill whole buffer"), [])
read_all (suc n) (b ∷ rest) = cons_ok b (read_all n rest)

abbrev byte_by_byte : Reader
byte_by_byte = record { Stream = Bytes; read = read_one; read_exact = read_all }

read_all-append : (body rest : Bytes) → read_all (length body) (body ++ rest) ≡ (ok body, rest)
read_all-append [] rest = refl
read_all-append (b ∷ body) rest = rw (read_all-append body rest) refl

read_all_short :
    (n : ℕ) (s : Bytes)
    → length s < n
    → (text : String) × (s1 : Bytes) × (read_all n s ≡ (err (unexpected_eof text), s1))
read_all_short zero s h = absurd (omega (arith, h))
read_all_short (suc n) [] h = (_, _, refl)
read_all_short (suc n) (b ∷ s) h =
    let (text, s1, e) = read_all_short n s (omega (arith, h)) in (text, s1, rw e refl)

read_one_law :
    (n : ℕ) (s : Bytes)
    → 0 < n
    → (bytes : Bytes) × (s1 : Bytes) × (read_one n s ≡ (ok bytes, s1))
      × (length bytes ≤ n)
      × (bytes ++ s1 ≡ s)
      × (bytes ≡ [] → s ≡ [])
read_one_law n [] h = ([], [], refl, omega arith, refl, λ e. refl)
read_one_law n (b ∷ s) h = (b ∷ [], s, refl, omega (arith, h), refl, λ e. absurd (cc))

abbrev delivers : Delivers byte_by_byte
delivers = record {
  remaining = λ s. s;
  read_law = read_one_law;
  exact_law = λ s body rest same. (rest, rw same (read_all-append body rest), refl);
  short_law = read_all_short;
}

abbrev output : Writer
output = record {
  Sink = Bytes;
  write_all = λ bytes sink. (ok tt, sink ++ bytes);
  flush = λ sink. (ok tt, sink);
}

abbrev collects : Collects output
collects = record {
  written = λ sink. sink;
  write_law = λ bytes sink. (sink ++ bytes, refl, refl);
  flush_law = λ sink. (sink, refl, refl);
}

abbrev pings : Postcard CoreControlMessage
pings = record { to_stdvec = λ m. ok (1 ∷ []); from_bytes = λ bytes. ok Protocol.pong }

abbrev pong_frame : Frame
pong_frame = Frame.response 1 1 "core" "native-host" (payload_of (2 ∷ []) none) []

abbrev texts : SerdeJson String
texts = record { to_vec = λ value. ok []; from_slice = λ bytes. err "not read" }

abbrev core : Bridge.Core String
core = record {
  transport = sockets;
  World = Unit {0};
  connect = λ path world. (ok (pong_frame ∷ []), world);
  controls = pings;
  dispatches = dispatch_codec;
  values = texts;
  debug_mismatch = λ command message. "";
  debug_dispatch = λ message. "";
  debug_content_type = λ content_type. "";
}

abbrev fresh : NativeHostSession core
fresh = Bridge.new core "/run/kunkka.sock" tt

abbrev ping : NativeRequest String
ping = record { id = "1"; command = NativeCommand.ping }

abbrev requests : SerdeJson (NativeRequest String)
requests = record { to_vec = λ request. ok []; from_slice = λ bytes. ok ping }

abbrev responses : SerdeJson (NativeResponse String)
responses = record { to_vec = λ response. ok (7 ∷ []); from_slice = λ bytes. err "not read" }

abbrev setting : Setting String
setting = record {
  core = core;
  reader = byte_by_byte;
  writer = output;
  requests = requests;
  responses = responses;
  id_of = λ value. none;
}

abbrev host : NativeHost setting
host = record { stream = 1 ∷ 0 ∷ 0 ∷ 0 ∷ 9 ∷ []; sink = []; session = fresh }

read_native_message-message_of_example :
    observe delivers (read_native_message byte_by_byte (1 ∷ 0 ∷ 0 ∷ 0 ∷ 9 ∷ []))
    ≡ message_of (1 ∷ 0 ∷ 0 ∷ 0 ∷ 9 ∷ [])
read_native_message-message_of_example =
    read_native_message-message_of delivers (1 ∷ 0 ∷ 0 ∷ 0 ∷ 9 ∷ [])

abbrev written_seven : Bytes
written_seven = 1 ∷ 0 ∷ 0 ∷ 0 ∷ 7 ∷ []

seven_written :
    (write_native_message output responses (success_response "1" Native.pong) (5 ∷ [])).1
    ≡ 5 ∷ written_seven
unfolding write_native_message to_le_bytes le_bytes write_body
seven_written = refl

read_native_message-write_native_message_example :
    ((write_native_message output responses (success_response "1" Native.pong) (5 ∷ [])).0 ≡ ok tt)
    × (observe delivers (read_native_message byte_by_byte (written_seven ++ 8 ∷ []))
        ≡ ok (some (7 ∷ [], 8 ∷ [])))
unfolding write_native_message
read_native_message-write_native_message_example =
    read_native_message-write_native_message collects delivers responses
      (success_response "1" Native.pong) (7 ∷ []) written_seven (8 ∷ []) (5 ∷ [])
      (written_seven ++ 8 ∷ []) refl (omega arith) seven_written refl

nine_read : read_native_message byte_by_byte written_seven ≡ (ok (some (7 ∷ [])), [])
unfolding read_native_message after_prefix read_body finish_body read_prefix from_le_bytes
nine_read = refl

read_native_message-bounded_example : length {A = ℕ} (7 ∷ []) ≤ max_native_message_len
read_native_message-bounded_example =
    read_native_message-bounded delivers written_seven [] (7 ∷ []) nine_read

handle_request-Reply_example : Reply "1" NativeCommand.ping ((handle_request core ping fresh).0)
handle_request-Reply_example = handle_request-Reply core ping fresh

send-Tracks_example :
    (is_ok ((send_core_control core Protocol.ping fresh).0)
      ≡ is_some ((send_core_control core Protocol.ping fresh).1.connection))
    × (is_ok ((send_frontend_dispatch core listing fresh).0)
        ≡ is_some ((send_frontend_dispatch core listing fresh).1.connection))
send-Tracks_example = send-Tracks core Protocol.ping listing fresh

abbrev connected : NativeHostSession core
connected = record fresh { connection = some (pong_frame ∷ []) }

abbrev used : NativeHostSession core
used = record fresh { connection = some []; next_request_id = 2 }

ponged :
    send_core_control_on_cached_connection core Protocol.ping connected ≡ (ok Protocol.pong, used)
unfolding send_core_control_on_cached_connection advance_request_id exchange send_on finish_send
    finish_recv read_response encode_control_message decode_control_message Bridge.new
ponged = refl

send_core_control-Exchanged_example :
    (bytes : Bytes) × (reply : Payload) × (pings.to_stdvec Protocol.ping ≡ ok bytes)
    × Exchanged core 1
        (record connected { next_request_id = 2 })
        (control_payload core bytes)
        reply
        used
    × (pings.from_bytes reply.bytes ≡ ok Protocol.pong)
unfolding Bridge.new
send_core_control-Exchanged_example =
    send_core_control-Exchanged core Protocol.ping Protocol.pong connected used ponged

run_native_host-Ends_example : (run_native_host setting 6 host).0 ≢ none
run_native_host-Ends_example = run_native_host-Ends delivers 6 host (omega arith)

host_input : host.stream ≡ frames ((9 ∷ []) ∷ [])
unfolding to_le_bytes le_bytes
host_input = refl

host-Encodes : Encodes setting (answers setting ((9 ∷ []) ∷ []) fresh) ((7 ∷ []) ∷ [])
host-Encodes = one_more _ (7 ∷ []) [] [] refl (omega arith) nothing

run_native_host-answers_example :
    ((run_native_host setting 2 host).0 ≡ some (ok tt))
    × ((run_native_host setting 2 host).1.sink ≡ frames ((7 ∷ []) ∷ []))
    × ((run_native_host setting 2 host).1.session ≡ session_after setting ((9 ∷ []) ∷ []) fresh)
unfolding run_native_host to_le_bytes
run_native_host-answers_example =
    run_native_host-answers delivers collects ((9 ∷ []) ∷ []) ((7 ∷ []) ∷ []) 2 host host_input
      (omega arith, tt) host-Encodes (omega arith)
