-- ===== src/Forward.antt =====
-- internal/sink/forward: the sink that publishes copies of events on another bus or topic.
pub mod Copy
pub mod Block
pub mod Chain
pub mod Publisher
pub mod Target
pub mod Tests
