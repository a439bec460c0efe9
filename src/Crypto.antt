-- ===== src/Crypto.antt =====
-- libyod/crypto.c: checksums of byte strings.
pub mod Crc32
pub mod Md5
mod Tests
