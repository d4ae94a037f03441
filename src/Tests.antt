-- ===== src/Tests.antt =====
-- Runs of the models on concrete telegrams, and applications of the theorems to them.
pub mod Samples
pub mod MemoryRuns
pub mod BufferedRuns
pub mod McpRuns
pub mod LookupRuns
pub mod ConnectionRuns
pub mod SqlRuns
pub mod StartupRuns
pub mod SqliteRuns
pub mod MigrateRuns
