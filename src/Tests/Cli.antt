-- ===== src/Tests/Cli.antt =====
-- Reading the flags of the commands.
use tx_xrpl_token_migrator.Base.{
  ◌-◌, ◌^◌, ◌≡◌, ◌≢◌, refl, ap, ◌↔◌, Option, none, some, List, [], ◌∷◌, Memᴰ, arith,
}
use tx_xrpl_token_migrator.Base.Int.{ℤ, pos}
use tx_xrpl_token_migrator.Base.Str.{Str, codes}
use tx_xrpl_token_migrator.Base.Go.{ok, err, new_error}
use tx_xrpl_token_migrator.Cli.Flags.{
  Setting, FlagName, FlagValue, Flags, get_string, get_int, get_string_slice,
}
use tx_xrpl_token_migrator.Cli.Settings.{
  ServicesConfig, default_testnet_cfg, default_cfg, run_setters, set_string_if_not_empty,
  set_string_int64_if_not_zero, set_date_if_not_empty, read_services_config,
}
use tx_xrpl_token_migrator.Tx.Contract.Types.{XrplToken, DeployAndInstantiateConfig}
use tx_xrpl_token_migrator.Cli.Deploy.{deploy_cfg}
use tx_xrpl_token_migrator.Cli.Deploy.Accepts.{IsDeployable, deploy_accepts}
use tx_xrpl_token_migrator.Tests.Samples.{sdk}
use tx_xrpl_token_migrator.Tests.Service.{outside}
use tx_xrpl_token_migrator.Cli.Token.{
  split, token_of_parts, parse_digits, parse_uint, parse_token, parse_tokens,
}
use tx_xrpl_token_migrator.Cli.Token.Exact.{AreTokenTexts, tokens_exact}
use tx_xrpl_token_migrator.Cli.Settings.Order.{IsOrder, IsConfigured, read_any_order}

abbrev some_flags : Flags
some_flags FlagName.tx_chain_id = some (FlagValue.text (codes "test"))
some_flags (FlagName.setting Setting.tx_rpc_url) = some (FlagValue.text (codes "rpc"))
some_flags (FlagName.setting Setting.tx_grpc_url) = some (FlagValue.text [])
some_flags (FlagName.setting Setting.xrpl_history_scan_start_ledger) =
    some (FlagValue.int64 (pos 7))
some_flags (FlagName.setting Setting.audit_start_date) = some (FlagValue.text (codes "d"))
some_flags _ = none

abbrev pub backwards : List Setting
backwards =
    Setting.audit_start_date ∷ Setting.prometheus_password ∷ Setting.prometheus_username
    ∷ Setting.prometheus_instance_name ∷ Setting.prometheus_url ∷ Setting.tx_contract_address
    ∷ Setting.tx_sender_address ∷ Setting.tx_grpc_url ∷ Setting.tx_rpc_url
    ∷ Setting.xrpl_memo_suffix ∷ Setting.xrpl_recent_scan_skip_last_indexes
    ∷ Setting.xrpl_recent_scan_indexes_back ∷ Setting.xrpl_history_scan_start_ledger
    ∷ Setting.xrpl_rpc_url ∷ []

backwards_full : (s : Setting) → Memᴰ s backwards
backwards_full Setting.xrpl_rpc_url = search (Memᴰ.head, Memᴰ.tail) depth 20
backwards_full Setting.xrpl_history_scan_start_ledger = search (Memᴰ.head, Memᴰ.tail) depth 20
backwards_full Setting.xrpl_recent_scan_indexes_back = search (Memᴰ.head, Memᴰ.tail) depth 20
backwards_full Setting.xrpl_recent_scan_skip_last_indexes = search (Memᴰ.head, Memᴰ.tail) depth 20
backwards_full Setting.xrpl_memo_suffix = search (Memᴰ.head, Memᴰ.tail) depth 20
backwards_full Setting.tx_rpc_url = search (Memᴰ.head, Memᴰ.tail) depth 20
backwards_full Setting.tx_grpc_url = search (Memᴰ.head, Memᴰ.tail) depth 20
backwards_full Setting.tx_sender_address = search (Memᴰ.head, Memᴰ.tail) depth 20
backwards_full Setting.tx_contract_address = search (Memᴰ.head, Memᴰ.tail) depth 20
backwards_full Setting.prometheus_url = search (Memᴰ.head, Memᴰ.tail) depth 20
backwards_full Setting.prometheus_instance_name = search (Memᴰ.head, Memᴰ.tail) depth 20
backwards_full Setting.prometheus_username = search (Memᴰ.head, Memᴰ.tail) depth 20
backwards_full Setting.prometheus_password = search (Memᴰ.head, Memᴰ.tail) depth 20
backwards_full Setting.audit_start_date = search (Memᴰ.head, Memᴰ.tail) depth 20

backwards-IsOrder : IsOrder backwards
backwards-IsOrder = (ground arith, backwards_full)

abbrev made : ServicesConfig
made = record (default_testnet_cfg outside) {
  xrpl_history_scan_start_ledger = pos 7;
  tx_rpc_url = codes "rpc";
  audit_start_date = pos 5;
}

read_any_order_example : (read_services_config outside some_flags backwards ≡ ok made) ↔ (
    (chain_id : _) × (network : ServicesConfig) × (get_string some_flags FlagName.tx_chain_id
      ≡ ok chain_id)
    × (default_cfg outside chain_id ≡ ok network)
    × IsConfigured outside some_flags network made)
read_any_order_example = read_any_order outside some_flags backwards made backwards-IsOrder

read_is_made : read_services_config outside some_flags backwards ≡ ok made
unfolding default_testnet_cfg default_cfg run_setters set_string_if_not_empty
    set_string_int64_if_not_zero set_date_if_not_empty read_services_config get_string
    tx_xrpl_token_migrator.Base.Str.str_eq tx_xrpl_token_migrator.Cli.Flags.get_int64
read_is_made = refl

abbrev pub token_texts : List Str
token_texts = codes "rI/COR/0042/1.5" ∷ codes "rJ//7/" ∷ []

abbrev two_tokens : List XrplToken
two_tokens =
    record {
      currency = codes "COR";
      issuer = codes "rI";
      activation_date = 42;
      multiplier = codes "1.5";
    }
    ∷ record { currency = []; issuer = codes "rJ"; activation_date = 7; multiplier = [] }
    ∷ []

tokens_exact_example :
    (parse_tokens token_texts ≡ ok two_tokens) ↔ AreTokenTexts token_texts two_tokens
tokens_exact_example = tokens_exact token_texts two_tokens

tokens_run : parse_tokens token_texts ≡ ok two_tokens
unfolding parse_tokens parse_token split token_of_parts parse_uint parse_digits
    tx_xrpl_token_migrator.Xrpl.Rpc.Call.wrap_err
tokens_run = refl

too_large : parse_uint (codes "18446744073709551616") ≡ err (new_error (codes "value out of range"))
unfolding parse_uint parse_digits
too_large = refl

abbrev deploy_flags : Flags
deploy_flags FlagName.tx_contract_trusted_addresses =
    some (FlagValue.texts (codes "ta" ∷ codes "tb" ∷ []))
deploy_flags FlagName.tx_contract_owner_address = some (FlagValue.text (codes "to"))
deploy_flags FlagName.tx_contract_threshold = some (FlagValue.int (pos (2 ^ 32)))
deploy_flags FlagName.tx_contract_min_amount = some (FlagValue.text (codes "5"))
deploy_flags FlagName.tx_contract_max_amount = some (FlagValue.text (codes "9"))
deploy_flags _ = none

abbrev one_digit : Str → Option ℤ
one_digit [] = none
one_digit (c ∷ s) = some (pos (c - 48))

abbrev deployed : DeployAndInstantiateConfig
deployed = record {
  owner = codes "to";
  admin = codes "to";
  trusted_addresses = codes "ta" ∷ codes "tb" ∷ [];
  threshold = 0;
  min_amount = pos 5;
  max_amount = pos 9;
  xrpl_tokens = [];
  label = codes "bank_threshold_send";
}

deploy_accepts_example :
    (deploy_cfg sdk one_digit deploy_flags ≡ ok deployed)
    ↔ IsDeployable sdk one_digit deploy_flags deployed
deploy_accepts_example = deploy_accepts sdk one_digit deploy_flags deployed

-- A threshold of 2 ^ 32 is accepted, and is none.
deploy_run : deploy_cfg sdk one_digit deploy_flags ≡ ok deployed
unfolding deploy_cfg get_string get_string_slice get_int
deploy_run = refl
