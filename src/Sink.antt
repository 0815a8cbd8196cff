-- ===== src/Sink.antt =====
-- internal/sink: the error classes of Process and the stalled set and router that act on them.
pub mod Contract
pub mod Errors
pub mod Stalled
pub mod Router
pub mod Registry
pub mod Flight
pub mod Tests
