-- ===== src/Cli/Settings/Fields.antt =====
-- The fields of the configuration that the setters write.
use tx_xrpl_token_migrator.Base.{◌≡◌, ◌≢◌, refl}
use tx_xrpl_token_migrator.Base.Int.{ℤ}
use tx_xrpl_token_migrator.Base.Str.{Str}
use tx_xrpl_token_migrator.Base.Go.{Go, ok, ◌>>=◌}
use tx_xrpl_token_migrator.Xrpl.Model.{Time}
use tx_xrpl_token_migrator.Cli.Flags.{Setting, FlagName, Flags}
use tx_xrpl_token_migrator.Cli.Settings.{
  ServicesConfig, Outside, set_string_if_not_empty, set_string_int64_if_not_zero,
  set_date_if_not_empty, setter,
}

abbrev pub ValueOf : Setting → Type 0
ValueOf Setting.xrpl_rpc_url = Str
ValueOf Setting.xrpl_history_scan_start_ledger = ℤ
ValueOf Setting.xrpl_recent_scan_indexes_back = ℤ
ValueOf Setting.xrpl_recent_scan_skip_last_indexes = ℤ
ValueOf Setting.xrpl_memo_suffix = Str
ValueOf Setting.tx_rpc_url = Str
ValueOf Setting.tx_grpc_url = Str
ValueOf Setting.tx_sender_address = Str
ValueOf Setting.tx_contract_address = Str
ValueOf Setting.prometheus_url = Str
ValueOf Setting.prometheus_instance_name = Str
ValueOf Setting.prometheus_username = Str
ValueOf Setting.prometheus_password = Str
ValueOf Setting.audit_start_date = Time

abbrev pub value_of : (s : Setting) → ServicesConfig → ValueOf s
value_of Setting.xrpl_rpc_url cfg = cfg.xrpl_rpc_url
value_of Setting.xrpl_history_scan_start_ledger cfg = cfg.xrpl_history_scan_start_ledger
value_of Setting.xrpl_recent_scan_indexes_back cfg = cfg.xrpl_recent_scan_indexes_back
value_of Setting.xrpl_recent_scan_skip_last_indexes cfg = cfg.xrpl_recent_scan_skip_last_indexes
value_of Setting.xrpl_memo_suffix cfg = cfg.xrpl_memo_suffix
value_of Setting.tx_rpc_url cfg = cfg.tx_rpc_url
value_of Setting.tx_grpc_url cfg = cfg.tx_grpc_url
value_of Setting.tx_sender_address cfg = cfg.tx_sender_address
value_of Setting.tx_contract_address cfg = cfg.tx_contract_address
value_of Setting.prometheus_url cfg = cfg.prometheus_url
value_of Setting.prometheus_instance_name cfg = cfg.prometheus_instance_name
value_of Setting.prometheus_username cfg = cfg.prometheus_username
value_of Setting.prometheus_password cfg = cfg.prometheus_password
value_of Setting.audit_start_date cfg = cfg.audit_start_date

abbrev pub with_value : (s : Setting) → ValueOf s → ServicesConfig → ServicesConfig
with_value Setting.xrpl_rpc_url v cfg = record cfg { xrpl_rpc_url = v }
with_value Setting.xrpl_history_scan_start_ledger v cfg = record cfg {
  xrpl_history_scan_start_ledger = v;
}
with_value Setting.xrpl_recent_scan_indexes_back v cfg = record cfg {
  xrpl_recent_scan_indexes_back = v;
}
with_value Setting.xrpl_recent_scan_skip_last_indexes v cfg = record cfg {
  xrpl_recent_scan_skip_last_indexes = v;
}
with_value Setting.xrpl_memo_suffix v cfg = record cfg { xrpl_memo_suffix = v }
with_value Setting.tx_rpc_url v cfg = record cfg { tx_rpc_url = v }
with_value Setting.tx_grpc_url v cfg = record cfg { tx_grpc_url = v }
with_value Setting.tx_sender_address v cfg = record cfg { tx_sender_address = v }
with_value Setting.tx_contract_address v cfg = record cfg { tx_contract_address = v }
with_value Setting.prometheus_url v cfg = record cfg { prometheus_url = v }
with_value Setting.prometheus_instance_name v cfg = record cfg { prometheus_instance_name = v }
with_value Setting.prometheus_username v cfg = record cfg { prometheus_username = v }
with_value Setting.prometheus_password v cfg = record cfg { prometheus_password = v }
with_value Setting.audit_start_date v cfg = record cfg { audit_start_date = v }

pub value_of-with_value :
    (s : Setting) (v : ValueOf s) (cfg : ServicesConfig) → value_of s (with_value s v cfg) ≡ v
value_of-with_value Setting.xrpl_rpc_url v cfg = refl
value_of-with_value Setting.xrpl_history_scan_start_ledger v cfg = refl
value_of-with_value Setting.xrpl_recent_scan_indexes_back v cfg = refl
value_of-with_value Setting.xrpl_recent_scan_skip_last_indexes v cfg = refl
value_of-with_value Setting.xrpl_memo_suffix v cfg = refl
value_of-with_value Setting.tx_rpc_url v cfg = refl
value_of-with_value Setting.tx_grpc_url v cfg = refl
value_of-with_value Setting.tx_sender_address v cfg = refl
value_of-with_value Setting.tx_contract_address v cfg = refl
value_of-with_value Setting.prometheus_url v cfg = refl
value_of-with_value Setting.prometheus_instance_name v cfg = refl
value_of-with_value Setting.prometheus_username v cfg = refl
value_of-with_value Setting.prometheus_password v cfg = refl
value_of-with_value Setting.audit_start_date v cfg = refl

pub value_of-with_other :
    (s t : Setting) (v : ValueOf s) (cfg : ServicesConfig)
    → s ≢ t
    → value_of t (with_value s v cfg) ≡ value_of t cfg
value_of-with_other Setting.xrpl_rpc_url Setting.xrpl_rpc_url v cfg h = absurd (h refl)
value_of-with_other Setting.xrpl_history_scan_start_ledger Setting.xrpl_history_scan_start_ledger v
      cfg h =
    absurd (h refl)
value_of-with_other Setting.xrpl_recent_scan_indexes_back Setting.xrpl_recent_scan_indexes_back v
      cfg h =
    absurd (h refl)
value_of-with_other Setting.xrpl_recent_scan_skip_last_indexes
      Setting.xrpl_recent_scan_skip_last_indexes v cfg h =
    absurd (h refl)
value_of-with_other Setting.xrpl_memo_suffix Setting.xrpl_memo_suffix v cfg h = absurd (h refl)
value_of-with_other Setting.tx_rpc_url Setting.tx_rpc_url v cfg h = absurd (h refl)
value_of-with_other Setting.tx_grpc_url Setting.tx_grpc_url v cfg h = absurd (h refl)
value_of-with_other Setting.tx_sender_address Setting.tx_sender_address v cfg h = absurd (h refl)
value_of-with_other Setting.tx_contract_address Setting.tx_contract_address v cfg h =
    absurd (h refl)
value_of-with_other Setting.prometheus_url Setting.prometheus_url v cfg h = absurd (h refl)
value_of-with_other Setting.prometheus_instance_name Setting.prometheus_instance_name v cfg h =
    absurd (h refl)
value_of-with_other Setting.prometheus_username Setting.prometheus_username v cfg h =
    absurd (h refl)
value_of-with_other Setting.prometheus_password Setting.prometheus_password v cfg h =
    absurd (h refl)
value_of-with_other Setting.audit_start_date Setting.audit_start_date v cfg h = absurd (h refl)
value_of-with_other s t v cfg h = refl

-- The fields without a setter.
abbrev pub fixed : ServicesConfig → Str × ℤ
fixed cfg = (cfg.tx_chain_id, cfg.config_watcher_poll_interval)

pub fixed-with_value :
    (s : Setting) (v : ValueOf s) (cfg : ServicesConfig) → fixed (with_value s v cfg) ≡ fixed cfg
fixed-with_value Setting.xrpl_rpc_url v cfg = refl
fixed-with_value Setting.xrpl_history_scan_start_ledger v cfg = refl
fixed-with_value Setting.xrpl_recent_scan_indexes_back v cfg = refl
fixed-with_value Setting.xrpl_recent_scan_skip_last_indexes v cfg = refl
fixed-with_value Setting.xrpl_memo_suffix v cfg = refl
fixed-with_value Setting.tx_rpc_url v cfg = refl
fixed-with_value Setting.tx_grpc_url v cfg = refl
fixed-with_value Setting.tx_sender_address v cfg = refl
fixed-with_value Setting.tx_contract_address v cfg = refl
fixed-with_value Setting.prometheus_url v cfg = refl
fixed-with_value Setting.prometheus_instance_name v cfg = refl
fixed-with_value Setting.prometheus_username v cfg = refl
fixed-with_value Setting.prometheus_password v cfg = refl
fixed-with_value Setting.audit_start_date v cfg = refl

module _ (O : Outside) (flags : Flags) where
  abbrev pub read : (s : Setting) → ValueOf s → Go (ValueOf s)
  read Setting.xrpl_rpc_url v =
      set_string_if_not_empty O flags (FlagName.setting Setting.xrpl_rpc_url) v
  read Setting.xrpl_history_scan_start_ledger v =
      set_string_int64_if_not_zero O flags (FlagName.setting Setting.xrpl_history_scan_start_ledger)
        v
  read Setting.xrpl_recent_scan_indexes_back v =
      set_string_int64_if_not_zero O flags (FlagName.setting Setting.xrpl_recent_scan_indexes_back)
        v
  read Setting.xrpl_recent_scan_skip_last_indexes v =
      set_string_int64_if_not_zero O flags
        (FlagName.setting Setting.xrpl_recent_scan_skip_last_indexes) v
  read Setting.xrpl_memo_suffix v =
      set_string_if_not_empty O flags (FlagName.setting Setting.xrpl_memo_suffix) v
  read Setting.tx_rpc_url v =
      set_string_if_not_empty O flags (FlagName.setting Setting.tx_rpc_url) v
  read Setting.tx_grpc_url v =
      set_string_if_not_empty O flags (FlagName.setting Setting.tx_grpc_url) v
  read Setting.tx_sender_address v =
      set_string_if_not_empty O flags (FlagName.setting Setting.tx_sender_address) v
  read Setting.tx_contract_address v =
      set_string_if_not_empty O flags (FlagName.setting Setting.tx_contract_address) v
  read Setting.prometheus_url v =
      set_string_if_not_empty O flags (FlagName.setting Setting.prometheus_url) v
  read Setting.prometheus_instance_name v =
      set_string_if_not_empty O flags (FlagName.setting Setting.prometheus_instance_name) v
  read Setting.prometheus_username v =
      set_string_if_not_empty O flags (FlagName.setting Setting.prometheus_username) v
  read Setting.prometheus_password v =
      set_string_if_not_empty O flags (FlagName.setting Setting.prometheus_password) v
  read Setting.audit_start_date v =
      set_date_if_not_empty O flags (FlagName.setting Setting.audit_start_date) v

  pub setter-read :
      (s : Setting) (cfg : ServicesConfig)
      → setter O flags s cfg ≡ (read s (value_of s cfg) >>= λ v. ok (with_value s v cfg))
  unfolding setter
  setter-read Setting.xrpl_rpc_url cfg = refl
  setter-read Setting.xrpl_history_scan_start_ledger cfg = refl
  setter-read Setting.xrpl_recent_scan_indexes_back cfg = refl
  setter-read Setting.xrpl_recent_scan_skip_last_indexes cfg = refl
  setter-read Setting.xrpl_memo_suffix cfg = refl
  setter-read Setting.tx_rpc_url cfg = refl
  setter-read Setting.tx_grpc_url cfg = refl
  setter-read Setting.tx_sender_address cfg = refl
  setter-read Setting.tx_contract_address cfg = refl
  setter-read Setting.prometheus_url cfg = refl
  setter-read Setting.prometheus_instance_name cfg = refl
  setter-read Setting.prometheus_username cfg = refl
  setter-read Setting.prometheus_password cfg = refl
  setter-read Setting.audit_start_date cfg = refl
