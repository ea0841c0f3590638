-- ===== src/Cli/Settings.antt =====
-- `readServicesConfig` of relayer/cmd/main.go: the configuration of a network, with the values of
-- the flags that are set.
pub mod Fields
pub mod Gives
pub mod Order
use tx_xrpl_token_migrator.Base.{
  ◌==◌, Bool, true, false, Option, none, some, List, [], ◌∷◌, length, if◌then◌else◌,
}
use tx_xrpl_token_migrator.Base.Int.{ℤ, pos, eqb_ℤ}
use tx_xrpl_token_migrator.Base.Str.{Str, codes, str_eq}
use tx_xrpl_token_migrator.Base.Go.{Go, ok, err, panics, ◌>>=◌, new_error}
use tx_xrpl_token_migrator.Xrpl.Model.{Time}
use tx_xrpl_token_migrator.Cli.Flags.{Setting, FlagName, FlagValue, Flags, get_string, get_int64}

-- `Config` of relayer/service/service.go; times are in nanoseconds.
pub record ServicesConfig : Type 0 where
  pub xrpl_rpc_url : Str
  pub xrpl_history_scan_start_ledger : ℤ
  pub xrpl_recent_scan_indexes_back : ℤ
  pub xrpl_recent_scan_skip_last_indexes : ℤ
  pub xrpl_memo_suffix : Str
  pub tx_chain_id : Str
  pub tx_rpc_url : Str
  pub tx_grpc_url : Str
  pub tx_sender_address : Str
  pub tx_contract_address : Str
  pub prometheus_url : Str
  pub prometheus_instance_name : Str
  pub prometheus_username : Str
  pub prometheus_password : Str
  pub audit_start_date : Time
  pub config_watcher_poll_interval : ℤ

-- What is not part of the repository: the identifiers of the networks in the package constant, and
-- `time.Parse` of a date, none on an error.
pub record Outside : Type 0 where
  pub chain_id_dev : Str
  pub chain_id_test : Str
  pub chain_id_main : Str
  pub parse_date : Str → Option Time

-- Whether `Lookup` finds a flag.
abbrev pub is_declared : Option FlagValue → Bool
is_declared none = false
is_declared (some v) = true

module _ (O : Outside) where
  -- `defaultTestnetCfg`
  unfoldable pub default_testnet_cfg : ServicesConfig
  default_testnet_cfg = record {
    xrpl_rpc_url = [];
    xrpl_history_scan_start_ledger = pos 20_000;
    xrpl_recent_scan_indexes_back = pos 30_000;
    xrpl_recent_scan_skip_last_indexes = pos 20;
    xrpl_memo_suffix = codes "/coreum-testnet-1/v1";
    tx_chain_id = O.chain_id_test;
    tx_rpc_url = [];
    tx_grpc_url = [];
    tx_sender_address = [];
    tx_contract_address = [];
    prometheus_url = [];
    prometheus_instance_name = [];
    prometheus_username = [];
    prometheus_password = [];
    audit_start_date = pos 1_733_011_200_000_000_000;
    config_watcher_poll_interval = pos 0;
  }

  -- `defaultMainnnetCfg`
  unfoldable pub default_mainnet_cfg : ServicesConfig
  default_mainnet_cfg = record {
    xrpl_rpc_url = [];
    xrpl_history_scan_start_ledger = pos 81_400_000;
    xrpl_recent_scan_indexes_back = pos 30_000;
    xrpl_recent_scan_skip_last_indexes = pos 20;
    xrpl_memo_suffix = codes "/coreum-mainnet-1/v1";
    tx_chain_id = O.chain_id_main;
    tx_rpc_url = [];
    tx_grpc_url = [];
    tx_sender_address = [];
    tx_contract_address = [];
    prometheus_url = [];
    prometheus_instance_name = [];
    prometheus_username = [];
    prometheus_password = [];
    audit_start_date = pos 946_684_800_000_000_000;
    config_watcher_poll_interval = pos 0;
  }

  -- The configuration that the chain id selects.
  unfoldable pub default_cfg : Str → Go ServicesConfig
  unfolding default_testnet_cfg default_mainnet_cfg
  default_cfg chain_id =
      if str_eq chain_id O.chain_id_dev
      then ok (record default_testnet_cfg { tx_chain_id = O.chain_id_dev })
      else if str_eq chain_id O.chain_id_test
      then ok default_testnet_cfg
      else if str_eq chain_id O.chain_id_main
      then ok default_mainnet_cfg
      else err (new_error (codes "unspported chain id"))

  module _ (flags : Flags) where
    -- `setStringIfNotEmpty`, with the value that the variable has afterwards.
    unfoldable pub set_string_if_not_empty : FlagName → Str → Go Str
    set_string_if_not_empty name v =
        if is_declared (flags name)
        then get_string flags name >>= (λ val. if length val == 0 then ok v else ok val)
        else ok v

    -- `setStringInt64IfNotZero`
    unfoldable pub set_string_int64_if_not_zero : FlagName → ℤ → Go ℤ
    set_string_int64_if_not_zero name v =
        if is_declared (flags name)
        then get_int64 flags name >>= (λ val. if eqb_ℤ val (pos 0) then ok v else ok val)
        else ok v

    -- `setDateIfNotEmpty`
    unfoldable pub set_date_if_not_empty : FlagName → Time → Go Time
    unfolding set_string_if_not_empty
    set_date_if_not_empty name v = set_string_if_not_empty name [] >>= λ date_str.
        if length date_str == 0 then ok v else elim (O.parse_date date_str) [
          | none ↦ err (new_error (codes "parsing time"))
          | some val ↦ ok val
        ]

    -- The setters of the map in `readServicesConfig`.
    unfoldable pub setter : Setting → ServicesConfig → Go ServicesConfig
    setter Setting.xrpl_rpc_url cfg =
        set_string_if_not_empty (FlagName.setting Setting.xrpl_rpc_url) cfg.xrpl_rpc_url >>= λ v.
        ok (record cfg { xrpl_rpc_url = v })
    setter Setting.xrpl_history_scan_start_ledger cfg =
        set_string_int64_if_not_zero (FlagName.setting Setting.xrpl_history_scan_start_ledger)
          cfg.xrpl_history_scan_start_ledger
        >>= λ v. ok (record cfg { xrpl_history_scan_start_ledger = v })
    setter Setting.xrpl_recent_scan_indexes_back cfg =
        set_string_int64_if_not_zero (FlagName.setting Setting.xrpl_recent_scan_indexes_back)
          cfg.xrpl_recent_scan_indexes_back
        >>= λ v. ok (record cfg { xrpl_recent_scan_indexes_back = v })
    setter Setting.xrpl_recent_scan_skip_last_indexes cfg =
        set_string_int64_if_not_zero (FlagName.setting Setting.xrpl_recent_scan_skip_last_indexes)
          cfg.xrpl_recent_scan_skip_last_indexes
        >>= λ v. ok (record cfg { xrpl_recent_scan_skip_last_indexes = v })
    setter Setting.xrpl_memo_suffix cfg =
        set_string_if_not_empty (FlagName.setting Setting.xrpl_memo_suffix) cfg.xrpl_memo_suffix
        >>= λ v. ok (record cfg { xrpl_memo_suffix = v })
    setter Setting.tx_rpc_url cfg =
        set_string_if_not_empty (FlagName.setting Setting.tx_rpc_url) cfg.tx_rpc_url >>= λ v.
        ok (record cfg { tx_rpc_url = v })
    setter Setting.tx_grpc_url cfg =
        set_string_if_not_empty (FlagName.setting Setting.tx_grpc_url) cfg.tx_grpc_url >>= λ v.
        ok (record cfg { tx_grpc_url = v })
    setter Setting.tx_sender_address cfg =
        set_string_if_not_empty (FlagName.setting Setting.tx_sender_address) cfg.tx_sender_address
        >>= λ v. ok (record cfg { tx_sender_address = v })
    setter Setting.tx_contract_address cfg =
        set_string_if_not_empty (FlagName.setting Setting.tx_contract_address)
          cfg.tx_contract_address
        >>= λ v. ok (record cfg { tx_contract_address = v })
    setter Setting.prometheus_url cfg =
        set_string_if_not_empty (FlagName.setting Setting.prometheus_url) cfg.prometheus_url
        >>= λ v. ok (record cfg { prometheus_url = v })
    setter Setting.prometheus_instance_name cfg =
        set_string_if_not_empty (FlagName.setting Setting.prometheus_instance_name)
          cfg.prometheus_instance_name
        >>= λ v. ok (record cfg { prometheus_instance_name = v })
    setter Setting.prometheus_username cfg =
        set_string_if_not_empty (FlagName.setting Setting.prometheus_username)
          cfg.prometheus_username
        >>= λ v. ok (record cfg { prometheus_username = v })
    setter Setting.prometheus_password cfg =
        set_string_if_not_empty (FlagName.setting Setting.prometheus_password)
          cfg.prometheus_password
        >>= λ v. ok (record cfg { prometheus_password = v })
    setter Setting.audit_start_date cfg =
        set_date_if_not_empty (FlagName.setting Setting.audit_start_date) cfg.audit_start_date
        >>= λ v. ok (record cfg { audit_start_date = v })

    -- The loop over the map, in the order in which it is iterated.
    unfoldable pub run_setters : List Setting → ServicesConfig → Go ServicesConfig
    unfolding setter
    run_setters [] cfg = ok cfg
    run_setters (name ∷ names) cfg = setter name cfg >>= λ cfg'. run_setters names cfg'

    -- `readServicesConfig`, with an order for the map.
    unfoldable pub read_services_config : List Setting → Go ServicesConfig
    unfolding run_setters default_cfg
    read_services_config order = get_string flags FlagName.tx_chain_id >>= λ chain_id.
        default_cfg chain_id >>= λ cfg. run_setters order cfg
