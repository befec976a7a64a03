-- ===== src/Orchestrator.antt =====
-- internal/orchestrator: the per-request session.
pub mod Session
pub mod Wiring
pub mod Generate
pub mod Loop
pub mod Request
