-- ===== src/Wire.antt =====
-- The byte level of cheshire/protocol_bin.go: results, big-endian integers, readers and writers.
-- The modules that use it take from `Wire.Reader` and `Wire.Writer`; this file has what both share.
pub mod Bytes
pub mod Reader
pub mod Writer
pub mod Copy
pub mod Copies
pub mod Limits
pub mod Tests
