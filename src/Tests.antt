-- ===== src/Tests.antt =====
-- The theorems at concrete frames and stores.
mod Checksum
mod Prefixes
mod Commands
mod Streams
mod Reads
mod Ring
mod Values
mod Channels
mod Clients
mod Sessions
mod Loops
mod Tables
mod Program
mod Columns
