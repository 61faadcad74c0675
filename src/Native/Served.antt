-- ===== src/Native/Served.antt =====
-- The whole loop of the native host: it ends, and it answers message by message.
pub mod Ends
pub mod Answered
