-- ===== src/Security.antt =====
-- src/security: what leaves the machine, and the record of it.
pub mod Secrets
pub mod ContentSecurity
pub mod DisclosureLedger
