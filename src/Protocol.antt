-- ===== src/Protocol.antt =====
-- src/protocol/parser.ts: how a message of the model becomes operations.
pub mod Fences
pub mod Parser
mod Tests
