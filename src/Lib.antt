-- ===== src/Lib.antt =====
-- Kunkka: a core process that starts the workers of locally installed apps, lets frontends call them,
-- and grants workers capabilities such as running a shell command or reading a file. This library models
-- the core and the host that a browser extension talks to.
--
-- How the parts work together. A frontend sends a frame to the core's socket (crates/kunkka-core/src/
-- runtime.rs). A control frame reads or changes approvals and the theme. A dispatch frame names an app
-- and a method: the app's manifest (app_manifest.rs) must name the method (permissions.rs), the decision
-- is written to an audit table (database.rs), and the worker manager (worker_dispatch.rs) sends the
-- request to the app's worker, which it starts first where none is connected. A worker registers by a
-- frame (worker_registry.rs). A worker that asks for a shell command gets it by its manifest, or by an
-- approval that a user has given to this command line (capability/shell.rs, approval.rs); one that asks
-- for a file or a page gets it where its manifest names the path or the domain (capability/fs.rs,
-- capability/http.rs); a database of its own is open to every app (capability/sqlite.rs). The native
-- host (crates/kunkka-native-host) reads requests of a browser extension from stdin, passes them on to
-- the core as frames and writes the answers to stdout.
--
-- Which file models what, with the paths of the repository:
--   Base         texts, maps in key order, results with `?`
--   Ipc          crates/kunkka-ipc/src/frame.rs, codec.rs, error.rs
--   Sdk          crates/kunkka-worker-sdk/src/types.rs, codec.rs, error.rs
--   Protocol     crates/kunkka-protocol/src/core_control.rs, frontend_dispatch.rs
--   CoreError    crates/kunkka-core/src/error.rs
--   Approval     crates/kunkka-core/src/approval.rs: `ApprovalStore` with `create`, `list_pending`,
--                `approve`, `reject`, `expire`, `consume_approved`, `reap_expired`
--   Registry     crates/kunkka-core/src/worker_registry.rs: `WorkerRegistry`
--   Manifest     crates/kunkka-core/src/app_manifest.rs: `AppManifest`, `AppRegistry`
--   Permissions  crates/kunkka-core/src/permissions.rs and capability/permissions.rs, with
--                check_fs_permission in Permissions/Paths
--   Files        crates/kunkka-core/src/capability/fs.rs
--   Http         crates/kunkka-core/src/capability/http.rs
--   Sqlite       crates/kunkka-core/src/capability/sqlite.rs
--   Shell        crates/kunkka-core/src/capability/shell.rs
--   Dispatch     crates/kunkka-core/src/worker_dispatch.rs: `WorkerManager`
--   Theme        crates/kunkka-core/src/theme/mod.rs: the operations that change the configuration, and
--                the schedule in Theme/Schedule
--   Runtime      crates/kunkka-core/src/runtime.rs: handle_frontend_frame and what it calls, with
--                record_frontend_dispatch_audit of database.rs; run_frontend_connection in
--                Runtime/Connection, over a list of the events that its select! takes
--   Native       crates/kunkka-native-host/src: error.rs and native_protocol.rs, native_messaging.rs
--                (Native/Messaging), bridge.rs (Native/Bridge) and host.rs (Native/Host)
--   Tests        samples, tests and instances of the results
--
-- How the code is read. A method on `&mut self` is a function that takes the state and returns the
-- answer with the new state. A `Result` is `Result` of Base/Fallible, and `?` is its bind. A `BTreeMap`
-- is a list in key order. `Instant::now()` is an argument, in nanoseconds. A counter wraps at its
-- width, as in a release build: 2^64 for approvals, 2^128 for request ids. A loop of the source runs over
-- a list or a text, but for two loops of the native host that read from a stream: the one that reads the
-- four bytes of a length takes at most four turns, and `run_native_host` takes its number of turns as an
-- argument, where one more than the bytes of the input are enough. What arrives at the socket while a
-- worker starts is a list of arrivals in order, whose end is the startup timeout, and what the
-- connection of a frontend waits for is a list of events in order, so that a statement about all such
-- lists is one about all interleavings.
--
-- What is a parameter: postcard, the JSON parser, the file system, SQLite, sockets, streams, reqwest with
-- its URLs, `/bin/sh` and the starting of processes. Nothing is assumed of them but what a statement
-- names: that a stream hands over its bytes in order (Delivers, Collects), and that a client asks its
-- redirect policy (RespectsPolicy).
--
-- What is not modelled: the core's loop that accepts connections and those that serve a capability
-- or an LLM stream, the llm capability and the routing of capabilities, the colors of the theme, the
-- command line and the terminal frontend, the client side of the worker SDK, links in the file
-- system, and log lines.
pub mod Base
pub mod Protocol
pub mod Approval
pub mod Ipc
pub mod Sdk
pub mod Registry
pub mod CoreError
pub mod Manifest
pub mod Native
pub mod Permissions
pub mod Shell
pub mod Files
pub mod Http
pub mod Sqlite
pub mod Dispatch
pub mod Theme
pub mod Runtime
pub mod Tests
