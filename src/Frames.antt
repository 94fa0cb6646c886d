-- ===== src/Frames.antt =====
-- src/frames.rs: the frame structures, their checksum, their sizes and their bytes.
pub mod Crc
pub mod Prefix
pub mod Command
pub mod Config
pub mod Data
pub mod Values
pub mod Channels
