-- ===== src/Tests.antt =====
-- Runs of the model on concrete inputs, and the theorems at inputs that meet their hypotheses.
pub mod Samples
pub mod Finder
pub mod Xrpl
pub mod Window
mod Scanner
mod Relay
mod Submit
pub mod Tx
mod Audit
mod Chain
pub mod Cli
mod Commands
pub mod Service
