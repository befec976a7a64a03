-- ===== src/Submission.antt =====
-- internal/llm/tools: the submit_trajectory tool.
pub mod Buffs
pub mod AttackSkills
pub mod Select
pub mod Score
pub mod Scan
pub mod Execute
pub mod Sessions
pub mod Publishes
