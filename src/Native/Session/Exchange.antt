-- ===== src/Native/Session/Exchange.antt =====
-- What a request that is answered has put on the connection and taken from it.
use kunkka.Base.{
  ℕ, ◌+◌, ◌%◌, String, Option, none, some, [], ◌≡◌, refl, ap, subst, inl, inr, nat_eq, nat_eq_iff,
  Bool-cases, arith,
}
use kunkka.Base.Fallible.{Result, ok, err, map_err, map_err-eq-ok}
use kunkka.Ipc.{Bytes, Frame, Payload, IpcError, FrameMetadata}
use kunkka.Protocol.{
  CoreControlMessage, encode_control_message, decode_control_message, encode_control_message-eq-ok,
  decode_control_message-eq-ok,
}
use kunkka.Native.{NativeHostError}
use kunkka.Native.Bridge.{
  Core, NativeHostSession, With, u128_mod, read_response, finish_recv, finish_send, send_on,
  exchange, request_frame, advance_request_id, then_read, send_core_control_on_cached_connection,
}

module _ {V : Type 0} (c : Core V) where
  -- One frame sent and one received, with one id.
  pub data Exchanged (request_id : ℕ) (s : NativeHostSession c) (payload : Payload)
      : Payload → NativeHostSession c → Type 0 where
    exchanged :
        (before between after : c.transport.Connection) (session_id : ℕ) (source target : String)
        (reply : Payload) (metadata : FrameMetadata)
        → s.connection ≡ some before
        → c.transport.send_frame
            (Frame.request request_id s.session_id s.source s.target payload [])
            before
          ≡ (ok tt, between)
        → c.transport.recv_frame between
          ≡ (ok (some (Frame.response request_id session_id source target reply metadata)), after)
        → Exchanged request_id s payload reply (record s { connection = some after })

  response-eq :
      {id request_id session_id : ℕ} {source target : String} {payload reply : Payload}
      {metadata : FrameMetadata}
      → id ≡ request_id
      → Path (Result NativeHostError Payload) (ok payload) (ok reply)
      → Frame.response id session_id source target payload metadata
        ≡ Frame.response request_id session_id source target reply metadata
  response-eq same_id same_payload = cc

  same_response :
      {request_id : ℕ} (id : ℕ) {session_id : ℕ} {source target : String} (payload : Payload)
      {reply : Payload} {metadata : FrameMetadata}
      → read_response c request_id (Frame.response id session_id source target payload metadata)
        ≡ ok reply
      → Frame.response id session_id source target payload metadata
        ≡ Frame.response request_id session_id source target reply metadata
  unfolding read_response
  same_response {request_id} id payload h = elim (Bool-cases (nat_eq id request_id)) [
    | inl same ↦ response-eq ((nat_eq_iff id request_id).0 same) (rw (same, read_response) at h)
    | inr other ↦ absurd (ground (arith, other, h))
  ]

  read_response-eq-ok :
      (request_id : ℕ) (frame : Frame) {reply : Payload}
      → read_response c request_id frame ≡ ok reply
      → (session_id : ℕ) × (source : String) × (target : String) × (metadata : FrameMetadata)
        × (frame ≡ Frame.response request_id session_id source target reply metadata)
  unfolding read_response
  read_response-eq-ok request_id frame {reply} =
      elim frame
        as (λ f.
          read_response c request_id f ≡ ok reply
          → (session_id : ℕ) × (source : String) × (target : String) × (metadata : FrameMetadata)
            × (f ≡ Frame.response request_id session_id source target reply metadata)) [
              | Frame.response id session_id source target payload metadata ↦
                  λ h. (session_id, source, target, metadata, same_response id payload h)
              | other ↦ λ h. absurd (cc)
            ]

  finish_recv-Exchanged :
      (request_id : ℕ) (payload : Payload) (s s1 : NativeHostSession c) {reply : Payload}
      (before between : c.transport.Connection)
      (received : Result IpcError (Option Frame) × c.transport.Connection)
      → s.connection ≡ some before
      → c.transport.send_frame (request_frame c s request_id payload) before ≡ (ok tt, between)
      → c.transport.recv_frame between ≡ received
      → finish_recv c request_id received s ≡ (ok reply, s1)
      → Exchanged request_id s payload reply s1
  unfolding finish_recv
  finish_recv-Exchanged request_id payload s s1 before between (err e, after) cached sent got h =
      absurd (cc)
  finish_recv-Exchanged request_id payload s s1 before between (ok none, after) cached sent got h =
      absurd (cc)
  finish_recv-Exchanged request_id payload s s1 {reply} before between (ok (some frame), after)
        cached sent got h =
      let (session_id, source, target, metadata, is_response) =
        read_response-eq-ok request_id frame (ap (λ t. t.0) h) in
      subst (λ t. Exchanged request_id s payload reply t) (ap (λ t. t.1) h)
        (exchanged before between after session_id source target reply metadata cached sent
          (subst (λ f. c.transport.recv_frame between ≡ (ok (some f), after)) is_response got))

  finish_send-Exchanged :
      (request_id : ℕ) (payload : Payload) (s s1 : NativeHostSession c) {reply : Payload}
      (before : c.transport.Connection) (sent : Result IpcError (Unit {0}) × c.transport.Connection)
      → s.connection ≡ some before
      → c.transport.send_frame (request_frame c s request_id payload) before ≡ sent
      → finish_send c request_id sent s ≡ (ok reply, s1)
      → Exchanged request_id s payload reply s1
  unfolding finish_send
  finish_send-Exchanged request_id payload s s1 before (err e, between) cached sent h = absurd (cc)
  finish_send-Exchanged request_id payload s s1 before (ok done, between) cached sent h =
      finish_recv-Exchanged request_id payload s s1 before between (c.transport.recv_frame between)
        cached sent refl h

  send_on-Exchanged :
      (cached : Option c.transport.Connection) (request_id : ℕ) (payload : Payload)
      (s s1 : NativeHostSession c) {reply : Payload}
      → s.connection ≡ cached
      → send_on c cached request_id payload s ≡ (ok reply, s1)
      → Exchanged request_id s payload reply s1
  unfolding send_on
  send_on-Exchanged none request_id payload s s1 same h = absurd (cc)
  send_on-Exchanged (some before) request_id payload s s1 same h =
      finish_send-Exchanged request_id payload s s1 before
        (c.transport.send_frame (request_frame c s request_id payload) before) same refl h

  exchange-Exchanged :
      (request_id : ℕ) (encoded : Result String Payload) (s s1 : NativeHostSession c)
      {reply : Payload}
      → exchange c request_id encoded s ≡ (ok reply, s1)
      → (payload : Payload) × (encoded ≡ ok payload) × Exchanged request_id s payload reply s1
  unfolding exchange
  exchange-Exchanged request_id (err e) s s1 h = absurd (cc)
  exchange-Exchanged request_id (ok payload) s s1 h =
      (payload, refl, send_on-Exchanged s.connection request_id payload s s1 refl h)

  then_read-eq-ok :
      {A : Type 0} (read : Payload → Result NativeHostError A) (sent : With c Payload) {a : A}
      {s1 : NativeHostSession c}
      → then_read c read sent ≡ (ok a, s1)
      → (reply : Payload) × (sent ≡ (ok reply, s1)) × (read reply ≡ ok a)
  then_read-eq-ok read (ok reply, s) h =
      (reply, ap (λ t. (ok reply, t)) (ap (λ t. t.1) h), ap (λ t. t.0) h)
  then_read-eq-ok read (err e, s) h = absurd (cc)

  -- The payload that carries a control message.
  abbrev pub control_payload : Bytes → Payload
  control_payload bytes = record {
    bytes = bytes;
    content_type = some "application/vnd.kunkka.core-control.v1+postcard";
    schema = some "kunkka.core-control.v1";
    metadata = [];
  }

  -- A control request on the cached connection that is answered with a message has sent one request
  -- frame, which carries the session's next request id, session id and endpoints, and postcard's bytes
  -- of the request in a payload of the control protocol. It has received one response frame with the
  -- same request id, whose bytes postcard reads as that message. The session keeps the connection, and
  -- its next request id has moved on.
  pub send_core_control-Exchanged :
      (message answer : CoreControlMessage) (s s1 : NativeHostSession c)
      → send_core_control_on_cached_connection c message s ≡ (ok answer, s1)
      → (bytes : Bytes) × (reply : Payload) × (c.controls.to_stdvec message ≡ ok bytes)
        × Exchanged s.next_request_id
            (record s { next_request_id = (s.next_request_id + 1) % u128_mod })
            (control_payload bytes)
            reply
            s1
        × (c.controls.from_bytes reply.bytes ≡ ok answer)
  unfolding send_core_control_on_cached_connection advance_request_id
  send_core_control-Exchanged message answer s s1 h =
      let (reply, got, decoded) =
        then_read-eq-ok
          (λ payload. map_err NativeHostError.core_ipc (decode_control_message c.controls payload))
          (exchange c s.next_request_id (encode_control_message c.controls message)
            (advance_request_id c s))
          h in
      let (payload, encoded, done) =
        exchange-Exchanged s.next_request_id (encode_control_message c.controls message)
          (advance_request_id c s) s1 got in
      let (bytes, written, names) =
        encode_control_message-eq-ok c.controls message payload encoded in
      (
        bytes,
        reply,
        written,
        subst (λ a. Exchanged s.next_request_id (advance_request_id c s) a reply s1) names done,
        decode_control_message-eq-ok c.controls reply answer (
            map_err-eq-ok NativeHostError.core_ipc (decode_control_message c.controls reply)
              decoded),
      )
