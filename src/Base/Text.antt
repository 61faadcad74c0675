-- ===== src/Base/Text.antt =====
-- Rust's `String` is the native text, compared by code points.
pub mod Order
pub mod Decimal
pub mod Trim
pub mod Split
