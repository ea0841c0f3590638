-- ===== src/Tx.antt =====
-- relayer/client/tx: the clients of the TX chain.
pub mod Contract
pub mod Chain
