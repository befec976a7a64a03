-- ===== src/Catalog.antt =====
-- internal/catalog/catalog.go: the indexed game data.
pub mod Names
pub mod Load
pub mod Classes
pub mod Progression
pub mod Search
