-- ===== src/Otlp.antt =====
-- internal/otlp: how an export is retried.
pub mod Retry
pub mod Export
pub mod Tests
