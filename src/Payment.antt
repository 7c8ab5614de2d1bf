-- ===== src/Payment.antt =====
-- packages/agent-pay-core/src/payment: the data of a payment check and the rules that decide it.
pub mod Types
pub mod Artifacts
pub mod Runtime
pub mod Amount
pub mod Authorization
pub mod Policy
pub mod Settlement
pub mod Normalize
