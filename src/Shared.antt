-- ===== src/Shared.antt =====
-- src/shared: what every component uses.
pub mod OperationId
