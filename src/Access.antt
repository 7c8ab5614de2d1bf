-- ===== src/Access.antt =====
-- Access to the auditor: apps/report-api/src/auditor/auth.ts, and of sqliteRepository.ts the methods
-- that keep challenges, sessions and agent tokens.
pub mod Tables
pub mod Acts
pub mod Rows
pub mod Store
pub mod Messages
pub mod Credentials
pub mod Challenges
pub mod Usable
pub mod Spending
pub mod Calls
pub mod Stable
pub mod Keeping
pub mod Replays
pub mod Known
pub mod Agents
pub mod Revoked
pub mod Issued
pub mod Sessions
mod Tests
