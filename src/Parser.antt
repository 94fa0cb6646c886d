-- ===== src/Parser.antt =====
-- src/frame_parser.rs: frames from the bytes of a TCP stream. Every index, slice and `unwrap` that
-- is out of range panics, as in Rust.
pub mod Errors
pub mod Reads
pub mod Trailer
pub mod Command
pub mod Data
pub mod Config
pub mod Dispatch
