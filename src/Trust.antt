-- ===== src/Trust.antt =====
-- packages/agent-pay-core/src/trust: the scores of tokens and accounts from what was observed of
-- them.
pub mod Signals
pub mod Rules
pub mod SubjectRules
pub mod AccountRules
pub mod Policy
pub mod Clear
pub mod SubjectClear
pub mod AccountClear
mod Tests
