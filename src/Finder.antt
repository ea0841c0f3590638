-- ===== src/Finder.antt =====
-- relayer/finder/finder.go: from a transaction of the XRPL to a pending transfer on TX.
pub mod Convert
pub mod Memo
pub mod Burn
pub mod Build
pub mod Forward
