-- ===== src/Workers.antt =====
-- internal/workers: the worker pool.
pub mod Pool
