-- ===== src/Native/Session.antt =====
-- The session of the native host: what a request of the extension is answered with, and when the
-- connection to the core is kept.
pub mod Reply
pub mod Connection
pub mod Exchange
