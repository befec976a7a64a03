-- ===== src/Tests.antt =====
-- The properties at concrete inputs, and runs of the definitions.
mod Domain
mod Hercules
mod HerculesDb
mod BuildLibrary
mod Orchestrator
mod Gates
mod Workers
mod Catalog
mod Submission
