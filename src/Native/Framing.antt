-- ===== src/Native/Framing.antt =====
-- The framing of native messages: reading against a description of it on the whole input, and reading
-- back what was written.
pub mod Prefix
pub mod Read
pub mod Written
