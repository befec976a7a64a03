-- ===== src/BuildLibrary.antt =====
-- internal/buildlibrary: the store of generations and saved trajectories.
pub mod Rows
pub mod Generations
pub mod Saved
