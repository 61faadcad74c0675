-- ===== src/Tests/Samples.antt =====
-- Sample values: an app, a connection that holds the frames it will receive, codecs of few messages.
use kunkka.Base.{zero, suc, String, Option, none, some, List, [], ◌∷◌}
use kunkka.Base.Fallible.{Result, ok, err}
use kunkka.Ipc.{Frame, Payload, Bytes, Postcard, Transport}
use kunkka.Sdk.{
  WorkerProtocolMessage, RegisterWorkerRequest, register_worker, register_worker_accepted,
  dispatch_worker, dispatch_worker_result, done,
}
use kunkka.Protocol
use kunkka.Protocol.{
  CoreControlMessage, FrontendDispatchMessage, FrontendDispatchRequest, macchiato,
}
use kunkka.Approval
use kunkka.Manifest.{AppManifest}
use kunkka.Manifest.Loading.{AppRegistry}
use kunkka.Dispatch.{Os, ActiveWorker, WorkerManager, with_app_registry}
use kunkka.Dispatch.Send.{Arrival, candidate}
use kunkka.Runtime.{Env, Core}

abbrev pub payload_of : Bytes → Option String → Payload
payload_of bytes schema = record {
  bytes = bytes;
  content_type = none;
  schema = schema;
  metadata = [];
}

abbrev pub notes : AppManifest
notes = record {
  app_id = "notes";
  worker = record { program = "notes-worker"; args = []; env = []; cwd = none };
  permissions = record { frontend_dispatch = record { allowed_methods = "list" ∷ [] } };
  capabilities = record {
    fs = none;
    shell = some (record { allow = "ls" ∷ "wc" ∷ []; ask = "rm" ∷ [] });
    http = none;
    llm = none;
  };
  idle_timeout_ms = 300_000;
  startup_timeout_ms = 10_000;
}

abbrev pub apps : AppRegistry
apps = record { manifests = ("notes", notes) ∷ [] }

abbrev receive : List Frame → Option Frame × List Frame
receive [] = (none, [])
receive (frame ∷ frames) = (some frame, frames)

abbrev pub sockets : Transport
sockets = record {
  Connection = List Frame;
  send_frame = λ frame frames. (ok tt, frames);
  recv_frame = λ frames. let (frame, rest) = receive frames in (ok frame, rest);
}

abbrev pub joining : RegisterWorkerRequest
joining = record { worker_id = "notes"; app_id = "notes"; capabilities = [] }

abbrev write_worker : WorkerProtocolMessage → Result String Bytes
write_worker (register_worker_accepted _) = ok (5 ∷ [])
write_worker (dispatch_worker _) = ok (6 ∷ [])
write_worker _ = err "not written"

abbrev read_worker : Bytes → Result String WorkerProtocolMessage
read_worker (zero ∷ []) = ok (register_worker joining)
read_worker (suc zero ∷ []) = ok (dispatch_worker_result (done (payload_of [] none)))
read_worker _ = err "not read"

abbrev pub worker_codec : Postcard WorkerProtocolMessage
worker_codec = record { to_stdvec = write_worker; from_bytes = read_worker }

abbrev pub control_codec : Postcard CoreControlMessage
control_codec = record { to_stdvec = λ m. ok (3 ∷ []); from_bytes = λ bytes. ok Protocol.ping }

abbrev pub listing : FrontendDispatchRequest
listing = record { app_id = "notes"; method = "list"; payload = payload_of [] none }

abbrev pub dispatch_codec : Postcard FrontendDispatchMessage
dispatch_codec = record {
  to_stdvec = λ m. ok (4 ∷ []);
  from_bytes = λ bytes. ok (FrontendDispatchMessage.dispatch listing);
}

abbrev pub processes : Os
processes = record { spawn = λ manifest socket_path. ok 7 }

abbrev pub registration : Frame
registration = Frame.request 1 1 "worker:notes" "" (payload_of (0 ∷ []) none) []

abbrev pub worker_answer : Frame
worker_answer = Frame.response 1 1 "worker:notes" "core" (payload_of (1 ∷ []) none) []

abbrev pub arriving : List (Arrival sockets worker_codec)
arriving = candidate none ∷ candidate (some (registration, worker_answer ∷ [])) ∷ []

abbrev pub idle_manager : WorkerManager sockets worker_codec
idle_manager = with_app_registry sockets worker_codec apps "/run/kunkka.sock"

abbrev pub notes_worker : ActiveWorker sockets worker_codec
notes_worker = record {
  worker_id = "notes";
  connection = worker_answer ∷ [];
  child = some 7;
  last_used_at = 0;
  idle_timeout = 300_000_000_000;
}

abbrev pub busy_manager : WorkerManager sockets worker_codec
busy_manager = record idle_manager { active_workers = ("notes", notes_worker) ∷ [] }

abbrev pub env : Env sockets
env = record {
  worker_messages = worker_codec;
  control_messages = control_codec;
  dispatch_messages = dispatch_codec;
  os = processes;
  insert = λ rows row. ok tt;
  save_theme = λ config. ok tt;
  socket_path = "/run/kunkka.sock";
}

abbrev pub core : Core sockets env
core = record {
  manager = idle_manager;
  approvals = Approval.new;
  audit = [];
  theme = record { active_flavor = macchiato; schedule = none; hooks = [] };
  broadcast = [];
}

abbrev pub ping_frame : Frame
ping_frame = Frame.request 8 2 "tui" "" (payload_of [] (some Protocol.core_control_schema)) []
