-- ===== src/Cli.antt =====
-- relayer/cmd/main.go: what the commands make of their flags.
pub mod Flags
pub mod Settings
pub mod Token
pub mod Deploy
pub mod Commands
