-- ===== src/Config.antt =====
-- internal/config: the values of the configuration.
pub mod ByteSize
pub mod Tests
