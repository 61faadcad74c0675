-- ===== src/Tests/Frontends.antt =====
-- Tests of the part of crates/kunkka-core/src/runtime.rs that answers frontends, and of permissions.rs.
use kunkka.Base.{List, ◌≡◌, refl, some, [], ◌∷◌}
use kunkka.Base.Fallible.{ok}
use kunkka.Ipc.{Frame}
use kunkka.Approval.Invariant
use kunkka.Protocol.{latte, encode_control_message, decode_control_message}
use kunkka.Dispatch.Consistent.{with_app_registry-IsConsistent}
use kunkka.Runtime.{handle_frontend_dispatch_request}
use kunkka.Runtime.Frames.{handle_frontend_frame}
use kunkka.Runtime.Audited.{Ends, handle_frontend_dispatch_request-Ends}
use kunkka.Runtime.Replies.{RepliesTo, handle_frontend_frame-RepliesTo}
use kunkka.Runtime.Invariant.{IsValid, handle_frontend_frame-IsValid}
use kunkka.Runtime.Connection.{
  Event, frame_ready, theme_ready, reap_tick, flavor_received, lagged, closed,
  run_frontend_connection, run_frontend_connection-IsValid,
}
use kunkka.Tests.Samples.{apps, sockets, listing, arriving, env, core, ping_frame}

handle_frontend_dispatch_request-Ends_example :
    Ends sockets env arriving 5 listing core
      (handle_frontend_dispatch_request sockets env arriving 5 listing core)
handle_frontend_dispatch_request-Ends_example =
    handle_frontend_dispatch_request-Ends sockets env arriving 5 listing core refl refl

core-IsValid : IsValid sockets env core
core-IsValid = record {
  workers = with_app_registry-IsConsistent apps "/run/kunkka.sock";
  approvals = Invariant.new-IsValid;
}

handle_frontend_frame-IsValid_example :
    IsValid sockets env (handle_frontend_frame sockets env arriving 5 ping_frame core).1
handle_frontend_frame-IsValid_example =
    handle_frontend_frame-IsValid sockets env arriving 5 ping_frame core core-IsValid

abbrev frontend_events : List (Event sockets env)
frontend_events =
    frame_ready [] 6
    ∷ theme_ready lagged
    ∷ theme_ready (flavor_received latte)
    ∷ reap_tick 400_000_000_000
    ∷ theme_ready closed
    ∷ []

run_frontend_connection-IsValid_example :
    IsValid sockets env
      (run_frontend_connection sockets env arriving 5 ping_frame frontend_events
        (ping_frame ∷ [])
        core).2
run_frontend_connection-IsValid_example =
    run_frontend_connection-IsValid sockets env arriving 5 ping_frame frontend_events
      (ping_frame ∷ []) core core-IsValid

abbrev pong_frame : Frame
pong_frame =
    Frame.response 8 2 "core" "tui"
      (record {
        bytes = 3 ∷ [];
        content_type = some "application/vnd.kunkka.core-control.v1+postcard";
        schema = some "kunkka.core-control.v1";
        metadata = [];
      })
      []

ping_answered : (handle_frontend_frame sockets env arriving 5 ping_frame core).0 ≡ ok pong_frame
unfolding handle_frontend_frame encode_control_message decode_control_message
ping_answered = refl

handle_frontend_frame-RepliesTo_example : RepliesTo sockets env ping_frame pong_frame
handle_frontend_frame-RepliesTo_example =
    handle_frontend_frame-RepliesTo sockets env arriving 5 ping_frame core pong_frame ping_answered
