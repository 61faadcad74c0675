-- ===== src/Runtime/Connection.antt =====
-- `run_frontend_connection` of crates/kunkka-core/src/runtime.rs. `tokio::select!` is a list of events
-- in the order in which its branches win, each with the time of it. A branch that loses is not
-- modelled: a read that `select!` drops half way is taken to leave the connection as it was.
use kunkka.Base.{ℕ, String, Option, none, some, List, [], ◌∷◌}
use kunkka.Base.Fallible.{Result, ok, err}
use kunkka.Ipc.{Frame, IpcError, Payload, Transport}
use kunkka.CoreError.{CoreError}
use kunkka.Protocol.{ThemeFlavor, theme_changed, encode_control_message}
use kunkka.Dispatch.{reap_idle_workers}
use kunkka.Dispatch.Send.{Arrival}
use kunkka.Dispatch.Consistent.{reap_idle_workers-IsConsistent}
use kunkka.Runtime.{Env, Core}
use kunkka.Runtime.Frames.{handle_frontend_frame}
use kunkka.Runtime.Invariant.{IsValid, handle_frontend_frame-IsValid}

-- What `theme_rx.recv()` yields.
pub data ThemeResult : Type 0 where
  flavor_received : ThemeFlavor → ThemeResult
  lagged closed : ThemeResult

module _ (t : Transport) (env : Env t) where
  -- The branches of `tokio::select!`. The first lists the workers that arrive while the frame is
  -- answered.
  pub data Event : Type 0 where
    frame_ready : List (Arrival t env.worker_messages) → (now : ℕ) → Event
    theme_ready : ThemeResult → Event
    reap_tick : (now : ℕ) → Event

  -- The result that ends the connection, `none` where the loop goes on, and what is left.
  abbrev pub Turn : Type 0
  Turn = Option (Result CoreError (Unit {0})) × t.Connection × Core t env

  abbrev finish_send : Result IpcError (Unit {0}) × t.Connection → Core t env → Turn
  finish_send (err e, connection) c = (some (err (CoreError.ipc e)), connection, c)
  finish_send (ok _, connection) c = (none, connection, c)

  abbrev send_response : Result CoreError Frame × Core t env → t.Connection → Turn
  send_response (err e, c) connection = (some (err e), connection, c)
  send_response (ok answer, c) connection = finish_send (t.send_frame answer connection) c

  unfoldable pub answer_frame :
      List (Arrival t env.worker_messages) → (now : ℕ) → Frame → t.Connection → Core t env → Turn
  answer_frame arrivals now frame connection c =
      send_response (handle_frontend_frame t env arrivals now frame c) connection

  abbrev answer_received :
      List (Arrival t env.worker_messages)
      → (now : ℕ) → Result IpcError (Option Frame) × t.Connection
      → Core t env
      → Turn
  answer_received arrivals now (err e, connection) c = (some (err (CoreError.ipc e)), connection, c)
  answer_received arrivals now (ok none, connection) c = (some (ok tt), connection, c)
  answer_received arrivals now (ok (some frame), connection) c =
      answer_frame arrivals now frame connection c

  unfoldable pub theme_event : Payload → Frame
  theme_event payload = Frame.event 0 "core" "frontend" "theme_changed" payload []

  abbrev finish_theme : Result IpcError (Unit {0}) × t.Connection → Core t env → Turn
  finish_theme (err _, connection) c = (some (ok tt), connection, c)
  finish_theme (ok _, connection) c = (none, connection, c)

  abbrev send_theme : Result String Payload → t.Connection → Core t env → Turn
  send_theme (err e) connection c = (some (err (CoreError.protocol e)), connection, c)
  send_theme (ok payload) connection c =
      finish_theme (t.send_frame (theme_event payload) connection) c

  -- One turn of the loop.
  unfoldable pub take_event : Event → t.Connection → Core t env → Turn
  unfolding answer_frame theme_event
  take_event (frame_ready arrivals now) connection c =
      answer_received arrivals now (t.recv_frame connection) c
  take_event (theme_ready (flavor_received flavor)) connection c =
      send_theme (encode_control_message env.control_messages (theme_changed flavor)) connection c
  take_event (theme_ready lagged) connection c = (none, connection, c)
  take_event (theme_ready closed) connection c = (some (ok tt), connection, c)
  take_event (reap_tick now) connection c = (
    none,
    connection,
    record c { manager = reap_idle_workers t env.worker_messages now c.manager },
  )

  -- The `loop`, until a turn ends it or the events are over.
  unfoldable pub run_events : List Event → Turn → Turn
  unfolding take_event
  run_events [] turn = turn
  run_events (event ∷ events) (some result, connection, c) = (some result, connection, c)
  run_events (event ∷ events) (none, connection, c) =
      run_events events (take_event event connection c)

  unfoldable pub run_frontend_connection :
      List (Arrival t env.worker_messages)
      → (now : ℕ) → Frame
      → List Event
      → t.Connection
      → Core t env
      → Turn
  unfolding answer_frame run_events
  run_frontend_connection arrivals now first_frame events connection c =
      run_events events (answer_frame arrivals now first_frame connection c)

  send_response-IsValid :
      (handled : Result CoreError Frame × Core t env) (connection : t.Connection)
      → IsValid t env handled.1
      → IsValid t env (send_response handled connection).2
  send_response-IsValid (err e, c) connection v = v
  send_response-IsValid (ok answer, c) connection v = sent (t.send_frame answer connection)
    where
      sent : (r : Result IpcError (Unit {0}) × t.Connection) → IsValid t env (finish_send r c).2
      sent (err e, left) = v
      sent (ok u, left) = v

  answer_frame-IsValid :
      (arrivals : List (Arrival t env.worker_messages)) (now : ℕ) (frame : Frame)
      → (connection : t.Connection) (c : Core t env) → IsValid t env c
      → IsValid t env (answer_frame arrivals now frame connection c).2
  unfolding answer_frame
  answer_frame-IsValid arrivals now frame connection c v =
      send_response-IsValid (handle_frontend_frame t env arrivals now frame c) connection
        (handle_frontend_frame-IsValid t env arrivals now frame c v)

  answer_received-IsValid :
      (arrivals : List (Arrival t env.worker_messages)) (now : ℕ)
      → (r : Result IpcError (Option Frame) × t.Connection) (c : Core t env) → IsValid t env c
      → IsValid t env (answer_received arrivals now r c).2
  answer_received-IsValid arrivals now (err e, connection) c v = v
  answer_received-IsValid arrivals now (ok none, connection) c v = v
  answer_received-IsValid arrivals now (ok (some frame), connection) c v =
      answer_frame-IsValid arrivals now frame connection c v

  send_theme-IsValid :
      (r : Result String Payload) (connection : t.Connection) (c : Core t env)
      → IsValid t env c
      → IsValid t env (send_theme r connection c).2
  send_theme-IsValid (err e) connection c v = v
  send_theme-IsValid (ok payload) connection c v =
      sent (t.send_frame (theme_event payload) connection)
    where
      sent : (r : Result IpcError (Unit {0}) × t.Connection) → IsValid t env (finish_theme r c).2
      sent (err e, left) = v
      sent (ok u, left) = v

  take_event-IsValid :
      (event : Event) (connection : t.Connection) (c : Core t env)
      → IsValid t env c
      → IsValid t env (take_event event connection c).2
  unfolding take_event
  take_event-IsValid (frame_ready arrivals now) connection c v =
      answer_received-IsValid arrivals now (t.recv_frame connection) c v
  take_event-IsValid (theme_ready (flavor_received flavor)) connection c v =
      send_theme-IsValid (encode_control_message env.control_messages (theme_changed flavor))
        connection c v
  take_event-IsValid (theme_ready lagged) connection c v = v
  take_event-IsValid (theme_ready closed) connection c v = v
  take_event-IsValid (reap_tick now) connection c v = record {
    workers = reap_idle_workers-IsConsistent now c.manager v.workers;
    approvals = v.approvals;
  }

  run_events-IsValid :
      (events : List Event) (turn : Turn)
      → IsValid t env turn.2
      → IsValid t env (run_events events turn).2
  unfolding run_events
  run_events-IsValid [] turn v = v
  run_events-IsValid (event ∷ events) (some result, connection, c) v = v
  run_events-IsValid (event ∷ events) (none, connection, c) v =
      run_events-IsValid events (take_event event connection c)
        (take_event-IsValid event connection c v)

  -- Where the workers and the approvals are in order, a connection of a frontend leaves them in order,
  -- whatever frames arrive, themes are announced and workers are reaped, in any order, and whether the
  -- connection is still open, was closed or failed.
  pub run_frontend_connection-IsValid :
      (arrivals : List (Arrival t env.worker_messages)) (now : ℕ) (first_frame : Frame)
      → (events : List Event) (connection : t.Connection) (c : Core t env) → IsValid t env c
      → IsValid t env (run_frontend_connection arrivals now first_frame events connection c).2
  unfolding run_frontend_connection
  run_frontend_connection-IsValid arrivals now first_frame events connection c v =
      run_events-IsValid events (answer_frame arrivals now first_frame connection c)
        (answer_frame-IsValid arrivals now first_frame connection c v)
