-- ===== src/Policy.antt =====
-- src/policy: the decision on one operation from three layers, and the growth of a session grant.
pub mod Types
pub mod Tools
pub mod Patterns
pub mod Rules
pub mod Layers
pub mod Limits
pub mod Facts
pub mod Engine
pub mod Grants
mod Tests
