-- ===== src/Orchestrator/Completion.antt =====
-- src/orchestrator/completion.ts: the gate that a claim of completion has to pass.
pub mod Types
pub mod Repository
pub mod Claims
pub mod Gate
pub mod Entries
pub mod Parts
pub mod Honesty
mod Tests
pub mod Acceptance
pub mod Disturbance
pub mod Validation
