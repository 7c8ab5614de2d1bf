-- ===== src/Payment/Normalize.antt =====
-- packages/agent-pay-core/src/payment/normalize.ts: the terms of a payment that a PAYMENT-REQUIRED
-- asks for.
pub mod Parsing
pub mod Values
pub mod Requirement
pub mod Selection
pub mod Terms
pub mod Accepted
pub mod Selected
pub mod Choice
pub mod Asked
mod Tests
