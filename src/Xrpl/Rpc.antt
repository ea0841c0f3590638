-- ===== src/Xrpl/Rpc.antt =====
-- relayer/client/xrpl/rpc.go: requests to an XRPL node.
pub mod Types
pub mod Convert
pub mod Call
pub mod Pages
pub mod Submit
pub mod Fetch
