-- ===== src/Recovery.antt =====
-- internal/recovery: the loop that asks GitHub to redeliver what the receiver never accepted.
pub mod Decide
pub mod State
pub mod Redeliver
pub mod Scan
pub mod Tests
