-- ===== src/Audit.antt =====
-- relayer/audit/audit.go: the audit of what the contract has sent against the XRPL.
pub mod Types
pub mod Events
pub mod Report
pub mod Calls
pub mod Compare
pub mod Run
