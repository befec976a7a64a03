-- ===== src/Gates.antt =====
-- internal/scoring/gates: the quality gates that a scored snapshot goes through. Go's `float64` is
-- a type `R` with the operations of `Gates.Inputs`; the gates only compare and scale with them.
pub mod Inputs
pub mod Cast
pub mod Status
pub mod Survival
pub mod Offense
pub mod Evaluate
