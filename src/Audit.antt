-- ===== src/Audit.antt =====
-- src/audit: the hash-chained event log of a session.
pub mod Log
