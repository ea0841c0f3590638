-- ===== src/Cli/Flags.antt =====
-- The flags of relayer/cmd/main.go that are read through cobra, and the reading of one flag.
pub mod Reads
use tx_xrpl_token_migrator.Base.{Option, none, some, List}
use tx_xrpl_token_migrator.Base.Int.{ℤ}
use tx_xrpl_token_migrator.Base.Str.{Str, codes}
use tx_xrpl_token_migrator.Base.Go.{Go, ok, err, new_error}

-- The names of the flags that `readServicesConfig` has a setter for.
pub data Setting : Type 0 where
  xrpl_rpc_url : Setting
  xrpl_history_scan_start_ledger : Setting
  xrpl_recent_scan_indexes_back : Setting
  xrpl_recent_scan_skip_last_indexes : Setting
  xrpl_memo_suffix : Setting
  tx_rpc_url : Setting
  tx_grpc_url : Setting
  tx_sender_address : Setting
  tx_contract_address : Setting
  prometheus_url : Setting
  prometheus_instance_name : Setting
  prometheus_username : Setting
  prometheus_password : Setting
  audit_start_date : Setting

-- The names of flags.
pub data FlagName : Type 0 where
  setting : Setting → FlagName
  xrpl_token : FlagName
  tx_chain_id : FlagName
  tx_contract_evidence_ids : FlagName
  tx_contract_trusted_addresses : FlagName
  tx_contract_owner_address : FlagName
  tx_contract_threshold : FlagName
  tx_contract_min_amount : FlagName
  tx_contract_max_amount : FlagName

-- A flag of a command with its type and value.
pub data FlagValue : Type 0 where
  text : Str → FlagValue
  int64 : ℤ → FlagValue
  int : ℤ → FlagValue
  texts : List Str → FlagValue

-- The flags of a command: none for a flag that it does not declare.
abbrev pub Flags : Type 0
Flags = FlagName → Option FlagValue

-- `Flags().GetString`, of the package pflag: an error for a flag that is not declared, or that has
-- another type.
unfoldable pub get_string : Flags → FlagName → Go Str
get_string flags name = elim (flags name) [
  | none ↦ err (new_error (codes "flag accessed but not defined"))
  | some (FlagValue.text v) ↦ ok v
  | some _ ↦ err (new_error (codes "trying to get string value of flag of another type"))
]

-- `Flags().GetInt64`
unfoldable pub get_int64 : Flags → FlagName → Go ℤ
get_int64 flags name = elim (flags name) [
  | none ↦ err (new_error (codes "flag accessed but not defined"))
  | some (FlagValue.int64 v) ↦ ok v
  | some _ ↦ err (new_error (codes "trying to get int64 value of flag of another type"))
]

-- `Flags().GetInt`
unfoldable pub get_int : Flags → FlagName → Go ℤ
get_int flags name = elim (flags name) [
  | none ↦ err (new_error (codes "flag accessed but not defined"))
  | some (FlagValue.int v) ↦ ok v
  | some _ ↦ err (new_error (codes "trying to get int value of flag of another type"))
]

-- `Flags().GetStringSlice`
unfoldable pub get_string_slice : Flags → FlagName → Go (List Str)
get_string_slice flags name = elim (flags name) [
  | none ↦ err (new_error (codes "flag accessed but not defined"))
  | some (FlagValue.texts v) ↦ ok v
  | some _ ↦ err (new_error (codes "trying to get stringSlice value of flag of another type"))
]
