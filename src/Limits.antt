-- ===== src/Limits.antt =====
-- Limits on the rate of requests: apps/report-api/src/securityLimits.ts and
-- apps/mcp-server/src/publicAccess.ts, which count the requests of each client in a bounded map.
pub mod Maps
pub mod Windows
pub mod Assessments
pub mod Tests
