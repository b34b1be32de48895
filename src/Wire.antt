-- ===== src/Wire.antt =====
-- The byte-level codecs under every message of internal/protocol.
pub mod Varint
pub mod Words
pub mod Bits
pub mod Stream
pub mod Crc
pub mod Encoder
pub mod Decoder
pub mod Reads
