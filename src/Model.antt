-- ===== src/Model.antt =====
-- internal/model: the identifiers and the times of runs, jobs and steps.
pub mod Ids
pub mod Times
pub mod Tests
