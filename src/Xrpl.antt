-- ===== src/Xrpl.antt =====
-- relayer/client/xrpl: the client of the XRP Ledger.
pub mod Model
pub mod Rpc
pub mod Scanner
pub mod Signer
