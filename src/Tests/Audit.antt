-- ===== src/Tests/Audit.antt =====
-- The audit, the watcher and the service on sample data.
use tx_xrpl_token_migrator.Base.{
  ◌≡◌, refl, ◌↔◌, true, Option, none, some, List, [], ◌∷◌, map, filter, All,
}
use tx_xrpl_token_migrator.Base.Int.{pos, ◌+ℤ◌}
use tx_xrpl_token_migrator.Base.Str.{Str, codes, str_eq}
use tx_xrpl_token_migrator.Base.Go.{ok, err, panics, new_error}
use tx_xrpl_token_migrator.Sdk.{Coin}
use tx_xrpl_token_migrator.Xrpl.Model.{Transaction}
use tx_xrpl_token_migrator.Finder.Build.{Config}
use tx_xrpl_token_migrator.Tx.Contract.Pending.{has_id}
use tx_xrpl_token_migrator.Tx.Contract.Types
use tx_xrpl_token_migrator.Tx.Contract.Types.{ThresholdBankSendRequest, XrplToken}
use tx_xrpl_token_migrator.Audit.Types.{
  Attribute, Message, TxResponse, DiscrepancyType, Discrepancy, ContractCallTx, XrplTokenConfig,
  AuditorConfig, Decoders,
}
use tx_xrpl_token_migrator.Audit.Events.{
  find_event_sibling_attribute_values, values_of_events, find_events_sibling_attribute_values,
  sum_coins, sum_coins_events_sibling_attribute_values,
}
use tx_xrpl_token_migrator.Audit.Events.Last.{last_sibling_panics}
use tx_xrpl_token_migrator.Audit.Calls.{
  sent_by_contract, sent_coins, twice, compare_sent, analyze_calls,
  analyze_contract_call_discrepancies,
}
use tx_xrpl_token_migrator.Audit.Calls.Twice.{is_double_spend, repeated, double_spends}
use tx_xrpl_token_migrator.Audit.Compare.{analyze_xrpl_to_tx_discrepancies}
use tx_xrpl_token_migrator.Audit.Compare.Clean.{IsClean, audit-IsClean}
use tx_xrpl_token_migrator.Watcher.{err_config_changed, ConfigWatcher, Tick, watch}
use tx_xrpl_token_migrator.Watcher.Detects.{IsChanged, watch_detects}
use tx_xrpl_token_migrator.Service.Restart.{IsRestart, run_goes_on}
use tx_xrpl_token_migrator.Service.{Iteration, run_executor_with_auto_restart, Settings}
use tx_xrpl_token_migrator.Tests.Samples.{ripple, sdk, parser}

abbrev sender_attr : Attribute
sender_attr = record { key = codes "sender"; value = codes "c" }

abbrev amount_attr : Attribute
amount_attr = record { key = codes "amount"; value = codes "7" }

last_sibling_panics_example :
    find_event_sibling_attribute_values
      (amount_attr ∷ sender_attr ∷ [])
      (codes "sender")
      (codes "c")
      (codes "amount")
    ≡ panics
unfolding str_eq
last_sibling_panics_example =
    last_sibling_panics (amount_attr ∷ []) sender_attr (codes "sender") (codes "c") (codes "amount")
      refl refl

abbrev coin : Coin
coin = record { denom = codes "utx"; amount = pos 7 }

abbrev decoders : Decoders
decoders = record {
  stringify_events = λ events. events;
  parse_coin_normalized = λ s. some coin;
  add_coin = λ coins c. c ∷ coins;
  amount_of = λ coins d. pos 7;
  base64_decode = λ s. none;
  unmarshal_call = λ s. none;
  unmarshal_threshold_bank_send = λ s. none;
  unmarshal_execute_pending = λ s. none;
  unmarshal_update_min_amount = λ s. none;
  unmarshal_update_max_amount = λ s. none;
}

abbrev auditor : AuditorConfig
auditor = record {
  contract_address = codes "c";
  tx_denom = codes "utx";
  tx_decimals = 6;
  xrpl_memo_suffix = codes "/tx";
  xrpl_tokens =
      record { xrpl_issuer = codes "I"; xrpl_currency = codes "C"; multiplier = codes "1.5" } ∷ [];
}

abbrev sent_tx : TxResponse
sent_tx = record {
  tx_hash = codes "T";
  events =
      record { event_type = codes "transfer"; attributes = sender_attr ∷ amount_attr ∷ [] } ∷ [];
  messages = none;
}

abbrev call : ContractCallTx ThresholdBankSendRequest
call = record {
  tx = sent_tx;
  msg = Message.other_message;
  payload = record { id = codes "H"; amount = coin; recipient = codes "tab" };
}

abbrev flagged : List (Discrepancy ripple)
flagged =
    record {
      tx_tx = sent_tx;
      xrpl_tx = none;
      discrepancy_type = DiscrepancyType.contract_double_spend;
    }
    ∷ []

calls_run :
    analyze_contract_call_discrepancies ripple sdk decoders auditor (call ∷ call ∷ []) ≡ ok flagged
unfolding analyze_contract_call_discrepancies analyze_calls twice compare_sent sent_coins
    sent_by_contract sum_coins_events_sibling_attribute_values find_events_sibling_attribute_values
    sum_coins values_of_events find_event_sibling_attribute_values str_eq has_id ◌+ℤ◌
calls_run = refl

double_spends_example :
    map (λ (d : Discrepancy ripple). d.tx_tx) (filter is_double_spend flagged)
    ≡ map (λ (c : ContractCallTx ThresholdBankSendRequest). c.tx) (repeated (call ∷ call ∷ []) [])
double_spends_example =
    double_spends ripple sdk decoders auditor (call ∷ call ∷ []) flagged calls_run

abbrev xrpl_transaction : Transaction ripple
xrpl_transaction = record {
  account = codes "U";
  destination = codes "I";
  delivery_amount = record { value = some (pos 10); currency = codes "C"; issuer = codes "I" };
  memos = codes "tab/tx" ∷ [];
  hash = codes "H";
  transaction_type = codes "Payment";
  transaction_result = codes "tesSUCCESS";
  ledger_index = pos 80;
  sequence = pos 1;
  date = pos 5;
  validated = true;
  affected_nodes = none;
}

abbrev transactions : Str → Option (Transaction ripple)
transactions hash = some xrpl_transaction

audit-IsClean_example :
    (analyze_xrpl_to_tx_discrepancies ripple sdk parser auditor transactions (call ∷ []) ≡ ok [])
    ↔ All (IsClean ripple sdk parser auditor transactions) (call ∷ [])
audit-IsClean_example = audit-IsClean ripple sdk parser auditor transactions (call ∷ [])

abbrev changed : Types.Config
changed = record {
  owner = [];
  trusted_addresses = [];
  threshold = 2;
  min_amount = pos 5;
  max_amount = pos 9;
  xrpl_tokens = [];
  version = 2;
}

abbrev ticks : List Tick
ticks = Tick.polled (err (new_error (codes "e"))) ∷ Tick.polled (ok changed) ∷ []

abbrev watcher : ConfigWatcher
watcher = record { current_version = 1 }

watch_detects_example :
    (watch watcher ticks ≡ some (err err_config_changed)) ↔ IsChanged watcher ticks
watch_detects_example = watch_detects watcher ticks

abbrev settings : Settings
settings = record {
  xrpl_history_scan_start_ledger = pos 1;
  xrpl_recent_scan_indexes_back = pos 30;
  xrpl_memo_suffix = codes "/tx";
  tx_denom = codes "utx";
  tx_decimals = 6;
}

abbrev token : XrplToken
token = record {
  currency = codes "C";
  issuer = codes "I";
  activation_date = 5;
  multiplier = codes "1.5";
}

abbrev token_finder : Config
token_finder = record {
  xrpl_issuer = codes "I";
  xrpl_currency = codes "C";
  activation_date = pos 5_000_000_000;
  multiplier = codes "1.5";
  xrpl_history_scan_start_ledger = pos 1;
  xrpl_recent_scan_indexes_back = pos 30;
  xrpl_memo_suffix = codes "/tx";
  tx_denom = codes "utx";
  tx_decimals = 6;
}

abbrev token_audit : XrplTokenConfig
token_audit = record {
  xrpl_issuer = codes "I";
  xrpl_currency = codes "C";
  multiplier = codes "1.5";
}

abbrev restarting : Iteration
restarting = record { ctx_err = none; services = ok tt; run = err err_config_changed }

run_goes_on_example :
    (run_executor_with_auto_restart (restarting ∷ restarting ∷ []) ≡ none)
    ↔ All IsRestart (restarting ∷ restarting ∷ [])
run_goes_on_example = run_goes_on (restarting ∷ restarting ∷ [])
