-- ===== src/Service/New.antt =====
-- `NewAuditor` and `NewServices` of relayer/service/service.go.
pub mod Alike
pub mod Agree
use tx_xrpl_token_migrator.Base.{
  ℕ, ◌+◌, Bool, true, false, Option, none, some, List, [], ◌∷◌, if◌then◌else◌,
}
use tx_xrpl_token_migrator.Base.Int.{ℤ, pos, eqb_ℤ}
use tx_xrpl_token_migrator.Base.Str.{Str, codes}
use tx_xrpl_token_migrator.Base.Go.{Go, ok, err, panics, ◌>>=◌, new_error}
use tx_xrpl_token_migrator.Sdk.{Sdk, Address}
use tx_xrpl_token_migrator.Ripple.{Ripple}
use tx_xrpl_token_migrator.Xrpl.Model.{Time}
use tx_xrpl_token_migrator.Xrpl.Rpc.Call.{wrap_err}
use tx_xrpl_token_migrator.Finder.Build
use tx_xrpl_token_migrator.Tx.Contract.Types.{XrplToken, Config, default_contract_client_config}
use tx_xrpl_token_migrator.Tx.Contract.Query.{get_contract_config}
use tx_xrpl_token_migrator.Audit.Types.{XrplTokenConfig, AuditorConfig}
use tx_xrpl_token_migrator.Watcher.{ConfigWatcher, initialize}
use tx_xrpl_token_migrator.Cli.Settings.{ServicesConfig}
use tx_xrpl_token_migrator.Service.{Settings, create_finders_and_audit_config}
use tx_xrpl_token_migrator.Service.Clients.{
  World, ContractClient, Context, is_empty, build_tx_client_context, contract_address_of,
}

abbrev pub FinderConfig : Type 0
FinderConfig = tx_xrpl_token_migrator.Finder.Build.Config

-- `Auditor`: its configuration with the start date, and the URL of its XRPL client.
pub record Auditor : Type 0 where
  pub cfg : AuditorConfig
  pub start_date : Time
  pub xrpl_rpc_url : Str

-- The configuration of the pusher of metrics, without its constants.
pub record PusherConfig : Type 0 where
  pub url : Str
  pub username : Str
  pub password : Str
  pub instance_name : Str

-- `Services`: the parts with the configurations that they are made from.
pub record Services (S : Sdk) (W : World) : Type 0 where
  pub config : ServicesConfig
  pub scanner_skip_last_indexes : ℤ
  pub tx_contract_client : ContractClient S W
  pub poll_interval : ℤ
  pub config_watcher : ConfigWatcher
  pub finders : List FinderConfig
  pub executor_sender : Address
  pub metric_pusher : Option PusherConfig
  pub auditor : Auditor

module _ (R : Ripple) (S : Sdk) (W : World) where
  -- The loop of `NewAuditor` over the tokens.
  unfoldable pub audit_tokens : List XrplToken → Go (List XrplTokenConfig)
  audit_tokens [] = ok []
  audit_tokens (token ∷ tokens) =
      let rest = audit_tokens tokens in
      elim (R.new_account_from_address token.issuer) [
        | none ↦ err (new_error (codes "failed to convert XRPLIssuer string to type"))
        | some xrpl_issuer ↦ elim (R.new_currency token.currency) [
          | none ↦ err (new_error (codes "failed to convert XRPLCurrency string to type"))
          | some xrpl_currency ↦ rest >>= λ configs. ok (
              record {
                xrpl_issuer = xrpl_issuer;
                xrpl_currency = xrpl_currency;
                multiplier = token.multiplier;
              }
              ∷ configs)
        ]
      ]

  -- `NewAuditor`, with the number of queries of the contract before its own.
  unfoldable pub new_auditor : ℕ → ServicesConfig → W.Keyring → Go Auditor
  unfolding audit_tokens contract_address_of build_tx_client_context get_contract_config wrap_err
      default_contract_client_config
  new_auditor n cfg kr = W.register_metrics >>= λ _.
      W.network_config_by_chain_id cfg.tx_chain_id >>= λ network.
      contract_address_of S W cfg >>= λ contract_address.
      build_tx_client_context S W cfg kr >>= λ ctx.
      wrap_err (codes "failed to query contract config") (
        get_contract_config S (W.chain ctx n)
          (default_contract_client_config (some contract_address) network.denom))
      >>= λ contract_cfg. audit_tokens contract_cfg.xrpl_tokens >>= λ tokens. ok (record {
        cfg = record {
          contract_address = S.address_string contract_address;
          tx_denom = network.denom;
          tx_decimals = 6;
          xrpl_memo_suffix = cfg.xrpl_memo_suffix;
          xrpl_tokens = tokens;
        };
        start_date = cfg.audit_start_date;
        xrpl_rpc_url = cfg.xrpl_rpc_url;
      })

  -- The sender's address, which is nil where it is not set.
  unfoldable pub sender_address_of : ServicesConfig → Go Address
  sender_address_of cfg =
      if is_empty cfg.tx_sender_address
      then ok []
      else elim (S.acc_address_from_bech32 cfg.tx_sender_address) [
        | none ↦ err (new_error (codes "invalid sender address"))
        | some a ↦ ok a
      ]

  -- The keyring in memory with the key of the sender alone, if that is asked for.
  unfoldable pub keyring_of : Bool → Address → W.Keyring → Go W.Keyring
  unfolding wrap_err
  keyring_of false sender kr = ok kr
  keyring_of true sender kr =
      wrap_err (codes "failed to get key from keyring for address") (W.key_by_address kr sender)
      >>= λ name.
          wrap_err (codes "failed to export key") (W.export_priv_key_armor kr name W.new_uuid)
          >>= λ armor.
              wrap_err (codes "failed to import key")
                (W.import_priv_key W.new_in_memory name armor W.new_uuid)

  -- `Initialize` of a new watcher, with the answer to its query.
  unfoldable pub initialized : Go Config → Go ConfigWatcher
  unfolding initialize
  initialized answer =
      let (watcher, result) = initialize answer (record { current_version = 0 }) in
      result >>= λ _. ok watcher

  abbrev pub settings_of : ServicesConfig → Str → Settings
  settings_of cfg denom = record {
    xrpl_history_scan_start_ledger = cfg.xrpl_history_scan_start_ledger;
    xrpl_recent_scan_indexes_back = cfg.xrpl_recent_scan_indexes_back;
    xrpl_memo_suffix = cfg.xrpl_memo_suffix;
    tx_denom = denom;
    tx_decimals = 6;
  }

  -- The parts, made from what has been read and asked for.
  unfoldable pub services_from :
      ServicesConfig
      → Str
      → Address
      → Address
      → Context S W
      → List FinderConfig
      → ConfigWatcher
      → Auditor
      → Services S W
  unfolding default_contract_client_config
  services_from cfg denom sender_address contract_address ctx finders watcher auditor = record {
    config = cfg;
    scanner_skip_last_indexes = cfg.xrpl_recent_scan_skip_last_indexes;
    tx_contract_client = record {
      cfg = default_contract_client_config (some contract_address) denom;
      client_ctx = ctx;
    };
    poll_interval =
        if eqb_ℤ cfg.config_watcher_poll_interval (pos 0)
        then pos 300_000_000_000
        else cfg.config_watcher_poll_interval;
    config_watcher = watcher;
    finders = finders;
    executor_sender = sender_address;
    metric_pusher =
        if is_empty cfg.prometheus_url
        then none
        else some (record {
          url = cfg.prometheus_url;
          username = cfg.prometheus_username;
          password = cfg.prometheus_password;
          instance_name = cfg.prometheus_instance_name;
        });
    auditor = auditor;
  }

  -- `NewServices` from the first query on. The contract is queried for the tokens of the finders,
  -- then for the version that is watched, then for the tokens of the auditor.
  unfoldable pub wire_services :
      ServicesConfig → W.Keyring → Str → Address → Address → Context S W → Go (Services S W)
  unfolding new_auditor initialized get_contract_config wrap_err default_contract_client_config
      create_finders_and_audit_config services_from
  wire_services cfg kr denom sender_address contract_address ctx =
      let client_cfg = default_contract_client_config (some contract_address) denom in
      wrap_err (codes "failed to query initial contract config")
        (get_contract_config S (W.chain ctx 0) client_cfg)
      >>= λ contract_cfg.
          wrap_err (codes "failed to create finders")
            (create_finders_and_audit_config R (settings_of cfg denom) contract_cfg.xrpl_tokens)
          >>= λ tokens.
              wrap_err (codes "failed to initialize config watcher")
                (initialized (get_contract_config S (W.chain ctx 1) client_cfg))
              >>= λ watcher.
                  wrap_err (codes "failed to create auditor") (new_auditor 2 cfg kr) >>= λ auditor.
                  ok (
                    services_from cfg denom sender_address contract_address ctx tokens.0 watcher
                      auditor)

  -- `NewServices`
  unfoldable pub new_services : ServicesConfig → W.Keyring → Bool → Go (Services S W)
  unfolding sender_address_of keyring_of contract_address_of build_tx_client_context wire_services
  new_services cfg kr use_in_memory_kr = W.register_metrics >>= λ _.
      W.network_config_by_chain_id cfg.tx_chain_id >>= λ network.
      sender_address_of cfg >>= λ sender_address.
      keyring_of use_in_memory_kr sender_address kr >>= λ kr'.
      contract_address_of S W cfg >>= λ contract_address.
      build_tx_client_context S W cfg kr' >>= λ ctx.
      wire_services cfg kr' network.denom sender_address contract_address ctx
