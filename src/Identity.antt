-- ===== src/Identity.antt =====
-- src/aipy/modules/identity: tokens, their revocation, and the lockout of logins.
pub mod Claims
pub mod Payloads
pub mod Revocations
pub mod Tokens
pub mod Lockout
pub mod Redis
pub mod Fixtures
