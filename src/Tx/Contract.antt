-- ===== src/Tx/Contract.antt =====
-- relayer/client/tx/contract.go: the client of the contract.
pub mod Types
pub mod Cosmos
pub mod Errors
pub mod Execute
pub mod Paging
pub mod Query
pub mod Pending
pub mod Estimate
