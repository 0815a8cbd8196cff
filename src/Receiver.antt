-- ===== src/Receiver.antt =====
-- internal/receiver: the webhook ingress.
pub mod Signature
pub mod Handler
pub mod Answers
pub mod Delivery
pub mod Tests
