-- ===== src/Event.antt =====
-- internal/event: the envelope of a delivery, and its two ways across the bus.
pub mod Envelope
pub mod Message
pub mod Tests
