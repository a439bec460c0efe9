-- ===== src/Text.antt =====
-- libyod/common.c: hexadecimal text, URLs, paths, counted strings and the checksum. A character is its
-- byte.
pub mod Hex
pub mod Url
pub mod Path
pub mod Chksum
pub mod Strings
mod Tests
