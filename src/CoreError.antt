-- ===== src/CoreError.antt =====
-- crates/kunkka-core/src/error.rs. An error of a library carries its text.
use kunkka.Base.{String, ◌<>◌}
use kunkka.Ipc.{IpcError, ipc_display}
use kunkka.Sdk.{WorkerSdkError, sdk_display}

pub data CoreError : Type 0 where
  missing_home : CoreError
  io : String → CoreError
  ipc : IpcError → CoreError
  protocol : String → CoreError
  worker_sdk : WorkerSdkError → CoreError
  invalid_worker_frame invalid_core_frame app_not_found manifest_invalid : String → CoreError
  worker_start_failed worker_start_timeout worker_unavailable : String → CoreError
  dispatch_ipc_error unexpected_worker_response database config : String → CoreError

unfoldable pub display : CoreError → String
unfolding ipc_display sdk_display
display missing_home = "HOME is missing or is not an absolute path"
display (io e) = "io error: " <> e
display (ipc e) = "ipc error: " <> ipc_display e
display (protocol e) = "protocol error: codec error: " <> e
display (worker_sdk e) = "worker sdk error: " <> sdk_display e
display (invalid_worker_frame e) = "invalid worker frame: " <> e
display (invalid_core_frame e) = "invalid core frame: " <> e
display (app_not_found e) = "app not found: " <> e
display (manifest_invalid e) = "manifest invalid: " <> e
display (worker_start_failed e) = "worker start failed: " <> e
display (worker_start_timeout e) = "worker start timeout: " <> e
display (worker_unavailable e) = "worker unavailable: " <> e
display (dispatch_ipc_error e) = "dispatch ipc error: " <> e
display (unexpected_worker_response e) = "unexpected worker response: " <> e
display (database e) = "database error: " <> e
display (config e) = "config error: " <> e
