-- ===== src/Auditor.antt =====
-- apps/report-api/src/auditor: the store of payment checks and of the reservations against the
-- operators' daily caps.
pub mod Tables
pub mod Prepare
pub mod Reserve
pub mod Transitions
pub mod Settle
pub mod Cancel
pub mod Ledger
mod Tests
mod SettleTests
mod CancelTests
