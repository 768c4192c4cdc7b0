-- ===== src/Session.antt =====
-- src/session: the durable session, one module for each part.
pub mod StateMachine
pub mod Budgets
pub mod Journal
