-- ===== src/Github.antt =====
-- internal/ghclient: the targets of recovery and what it asks of the GitHub API.
pub mod Targets
pub mod Deliveries
pub mod Hooks
pub mod Tests
