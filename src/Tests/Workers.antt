-- ===== src/Tests/Workers.antt =====
-- Tests of crates/kunkka-core/src/worker_registry.rs and worker_dispatch.rs.
use kunkka.Base.{◌≡◌, refl, none, some, []}
use kunkka.Base.Map
use kunkka.Base.Fallible.{ok}
use kunkka.Sdk.{encode_worker_message, decode_worker_message}
use kunkka.Registry.{new, register, remove}
use kunkka.Registry.Bijection.{IsValid, new-IsValid, register-IsValid}
use kunkka.Registry.Removal.{remove-IsValid}
use kunkka.Dispatch.{answered}
use kunkka.Dispatch.Consistent.{IsConsistent, with_app_registry-IsConsistent}
use kunkka.Dispatch.Started.{dispatch_with_start-IsConsistent}
use kunkka.Dispatch.Replies.{Answers, dispatch-Answers}
use kunkka.Dispatch.Processes.{Accounted, start-Accounted}
use kunkka.Dispatch.Send.{dispatch, dispatch_with_start, start_and_wait_for_registration}
use kunkka.Tests.Samples.{
  payload_of, notes, apps, sockets, joining, worker_codec, processes, arriving, idle_manager,
  busy_manager,
}

register-IsValid_example : IsValid (register joining new).1
register-IsValid_example = register-IsValid joining new new-IsValid

remove-IsValid_example : IsValid (remove "notes" (register joining new).1).1
remove-IsValid_example =
    remove-IsValid "notes" (register joining new).1 (register-IsValid joining new new-IsValid)

idle_manager-IsConsistent : IsConsistent idle_manager
idle_manager-IsConsistent = with_app_registry-IsConsistent apps "/run/kunkka.sock"

dispatch_with_start-IsConsistent_example :
    IsConsistent
      (dispatch_with_start sockets worker_codec processes arriving "notes" "list"
        (payload_of [] none)
        5
        idle_manager).1
dispatch_with_start-IsConsistent_example =
    dispatch_with_start-IsConsistent processes arriving "notes" "list" (payload_of [] none) 5
      idle_manager idle_manager-IsConsistent

busy_dispatch :
    (dispatch sockets worker_codec "notes" "list" (payload_of [] none) 5 busy_manager).0
    ≡ ok (answered (payload_of [] none))
unfolding dispatch Map.get encode_worker_message decode_worker_message
busy_dispatch = refl

dispatch-Answers_example :
    Answers sockets worker_codec "notes" "list"
      (payload_of [] none)
      busy_manager
      (answered (payload_of [] none))
dispatch-Answers_example =
    dispatch-Answers sockets worker_codec "notes" "list" (payload_of [] none) 5 busy_manager
      (answered (payload_of [] none)) busy_dispatch

notes_known : Map.get "notes" idle_manager.app_registry.manifests ≡ some notes
unfolding Map.get
notes_known = refl

start-Accounted_example :
    Accounted sockets worker_codec "notes" 7 idle_manager (
      start_and_wait_for_registration sockets worker_codec processes "notes" arriving 5
        idle_manager)
start-Accounted_example =
    start-Accounted sockets worker_codec processes "notes" arriving 5 idle_manager notes 7
      notes_known refl
