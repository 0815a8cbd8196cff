-- ===== src/Archive.antt =====
-- internal/sink/archive: the JSONL store, its files and what a reader finds in them.
pub mod Bytes
pub mod Files
pub mod Store
pub mod Log
pub mod Rotation
pub mod Writing
pub mod Appending
pub mod Reopening
pub mod Runs
pub mod Joined
pub mod Tests
