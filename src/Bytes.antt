-- ===== src/Bytes.antt =====
-- libyod/common.c: numbers and strings in byte buffers.
pub mod Fixed
pub mod Vint
pub mod Field
mod Tests
