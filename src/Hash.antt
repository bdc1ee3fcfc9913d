-- ===== src/Hash.antt =====
-- src/dxp/utils/Hash.hpp: CRC-32 of a byte sequence, and the streaming MD5 hasher.
mod Crc32Table
pub mod Crc32
pub mod Md5
