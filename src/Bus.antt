-- ===== src/Bus.antt =====
-- internal/bus: the transport contract, its capabilities, and the policy that resolves them.
pub mod Contract
pub mod Policy
pub mod Tests
