-- ===== src/Native/Session/Connection.antt =====
-- The cached connection and the ids of requests.
use kunkka.Base.{ℕ, String, Bool, true, false, Option, none, some, ◌≡◌, refl, sym}
use kunkka.Base.Fallible.{Result, ok, err, is_ok}
use kunkka.Ipc.{Frame, Payload, IpcError}
use kunkka.Protocol.{CoreControlMessage, FrontendDispatchRequest}
use kunkka.Native.{NativeHostError}
use kunkka.Native.Bridge.{
  Core, NativeHostSession, With, finish_recv, finish_send, send_on, exchange, connected,
  connect_unless, request_frame, advance_request_id, then_read,
  send_core_control_on_cached_connection, send_frontend_dispatch_on_cached_connection,
  ensure_connection, drop_on_error, on_connection, send_core_control, send_frontend_dispatch,
}

abbrev pub is_some : {A : Type 0} → Option A → Bool
is_some none = false
is_some (some a) = true

module _ {V : Type 0} (c : Core V) where
  -- A method that answers without error has left a connection behind.
  KeepsOnOk : {A : Type 0} → With c A → Type 0
  KeepsOnOk {A} (answer, s) = is_ok answer ≡ true → is_some s.connection ≡ true

  -- ... and one that fails has left none.
  abbrev Tracks : {A : Type 0} → With c A → Type 0
  Tracks {A} (answer, s) = is_ok answer ≡ is_some s.connection

  finish_recv-KeepsOnOk :
      (request_id : ℕ) (received : Result IpcError (Option Frame) × c.transport.Connection)
      (s : NativeHostSession c)
      → KeepsOnOk (finish_recv c request_id received s)
  unfolding finish_recv KeepsOnOk
  finish_recv-KeepsOnOk request_id (err e, connection) s h = refl
  finish_recv-KeepsOnOk request_id (ok none, connection) s h = refl
  finish_recv-KeepsOnOk request_id (ok (some frame), connection) s h = refl

  finish_send-KeepsOnOk :
      (request_id : ℕ) (sent : Result IpcError (Unit {0}) × c.transport.Connection)
      (s : NativeHostSession c)
      → KeepsOnOk (finish_send c request_id sent s)
  unfolding finish_send KeepsOnOk
  finish_send-KeepsOnOk request_id (err e, connection) s h = refl
  finish_send-KeepsOnOk request_id (ok done, connection) s h =
      finish_recv-KeepsOnOk request_id (c.transport.recv_frame connection) s h

  send_on-KeepsOnOk :
      (cached : Option c.transport.Connection) (request_id : ℕ) (payload : Payload)
      (s : NativeHostSession c)
      → KeepsOnOk (send_on c cached request_id payload s)
  unfolding send_on KeepsOnOk
  send_on-KeepsOnOk none request_id payload s h = cc
  send_on-KeepsOnOk (some connection) request_id payload s h =
      finish_send-KeepsOnOk request_id
        (c.transport.send_frame (request_frame c s request_id payload) connection) s h

  exchange-KeepsOnOk :
      (request_id : ℕ) (encoded : Result String Payload) (s : NativeHostSession c)
      → KeepsOnOk (exchange c request_id encoded s)
  unfolding exchange KeepsOnOk
  exchange-KeepsOnOk request_id (err e) s h = cc
  exchange-KeepsOnOk request_id (ok payload) s h =
      send_on-KeepsOnOk s.connection request_id payload s h

  then_read-KeepsOnOk :
      {A : Type 0} (read : Payload → Result NativeHostError A) (sent : With c Payload)
      → KeepsOnOk sent
      → KeepsOnOk (then_read c read sent)
  unfolding KeepsOnOk
  then_read-KeepsOnOk read (ok payload, s) keeps h = keeps refl
  then_read-KeepsOnOk read (err e, s) keeps h = cc

  drop_on_error-Tracks :
      {A : Type 0} (sent : With c A) → KeepsOnOk sent → Tracks (drop_on_error c sent)
  unfolding KeepsOnOk drop_on_error
  drop_on_error-Tracks (ok a, s) keeps = sym (keeps refl)
  drop_on_error-Tracks (err e, s) keeps = refl

  connected-Tracks :
      (s : NativeHostSession c) (answer : Result IpcError c.transport.Connection × c.World)
      → s.connection ≡ none
      → Tracks (connected c s answer)
  connected-Tracks s (err e, world) none_yet = rw none_yet refl
  connected-Tracks s (ok connection, world) none_yet = refl

  connect_unless-Tracks :
      (cached : Option c.transport.Connection) (s : NativeHostSession c)
      → s.connection ≡ cached
      → Tracks (connect_unless c cached s)
  unfolding connect_unless
  connect_unless-Tracks (some connection) s same = rw same refl
  connect_unless-Tracks none s same = connected-Tracks s (c.connect s.socket_path s.world) same

  on_connection-Tracks :
      {A : Type 0} (send : NativeHostSession c → With c A) (ready : With c (Unit {0}))
      → ((s : NativeHostSession c) → KeepsOnOk (send s))
      → Tracks ready
      → Tracks (on_connection c send ready)
  unfolding on_connection
  on_connection-Tracks send (err e, s) keeps tracks = tracks
  on_connection-Tracks send (ok done, s) keeps tracks = drop_on_error-Tracks (send s) (keeps s)

  -- After a request to the core the session holds a connection exactly when the request was answered without error, for control requests and dispatches alike, so that a connection on which something went wrong is never used again.
  pub send-Tracks :
      (message : CoreControlMessage) (request : FrontendDispatchRequest) (s : NativeHostSession c)
      → (is_ok ((send_core_control c message s).0)
          ≡ is_some ((send_core_control c message s).1.connection))
        × (is_ok ((send_frontend_dispatch c request s).0)
            ≡ is_some ((send_frontend_dispatch c request s).1.connection))
  unfolding send_core_control send_frontend_dispatch ensure_connection
      send_core_control_on_cached_connection send_frontend_dispatch_on_cached_connection
  send-Tracks message request s = (
    on_connection-Tracks (send_core_control_on_cached_connection c message) (ensure_connection c s)
        (λ ready. then_read-KeepsOnOk _ _ (exchange-KeepsOnOk _ _ (advance_request_id c ready)))
        (connect_unless-Tracks s.connection s refl),
    on_connection-Tracks (send_frontend_dispatch_on_cached_connection c request)
        (ensure_connection c s)
        (λ ready. then_read-KeepsOnOk _ _ (exchange-KeepsOnOk _ _ (advance_request_id c ready)))
        (connect_unless-Tracks s.connection s refl),
  )
