-- ===== src/Domain.antt =====
-- internal/domain: the types that the orchestrator reasons over.
pub mod Gate
pub mod Snapshot
pub mod Trajectory
pub mod Profile
pub mod Build
