-- ===== src/Orchestrator.antt =====
-- src/orchestrator: when a task counts as done, and the sizes that a result is planned with.
pub mod Completion
pub mod DisclosureBudget
