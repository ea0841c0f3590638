-- ===== src/Metric/Recorder.antt =====
-- relayer/metric/recorder.go: the gauges and the counter of the relayer. A gauge is kept as the
-- integer that it is set to, before the conversion to a float64.
pub mod Latest
use tx_xrpl_token_migrator.Base.{ℕ, ◌+◌, if◌then◌else◌}
use tx_xrpl_token_migrator.Base.Int.{ℤ, pos, ltb_ℤ}

pub record Recorder : Type 0 where
  pub tx_sender_balance_gauge : ℤ
  pub tx_contract_balance_gauge : ℤ
  pub tx_pending_unapproved_transactions_count : ℤ
  pub tx_pending_approved_transactions_count : ℤ
  pub xrpl_latest_ledger_index_gauge : ℤ
  pub xrpl_latest_ledger_index : ℤ
  pub errors_counter : ℕ

-- `NewRecorder`: gauges and counters start at zero.
unfoldable pub new_recorder : Recorder
new_recorder = record {
  tx_sender_balance_gauge = pos 0;
  tx_contract_balance_gauge = pos 0;
  tx_pending_unapproved_transactions_count = pos 0;
  tx_pending_approved_transactions_count = pos 0;
  xrpl_latest_ledger_index_gauge = pos 0;
  xrpl_latest_ledger_index = pos 0;
  errors_counter = 0;
}

unfoldable pub set_tx_sender_balance : ℤ → Recorder → Recorder
set_tx_sender_balance v r = record r { tx_sender_balance_gauge = v }

unfoldable pub set_tx_contract_balance : ℤ → Recorder → Recorder
set_tx_contract_balance v r = record r { tx_contract_balance_gauge = v }

-- `SetXRPLLatestAccountLedgerIndex`
unfoldable pub set_xrpl_latest_account_ledger_index : ℤ → Recorder → Recorder
set_xrpl_latest_account_ledger_index v r =
    if ltb_ℤ v r.xrpl_latest_ledger_index
    then r
    else record r { xrpl_latest_ledger_index_gauge = v }

unfoldable pub increment_error : Recorder → Recorder
increment_error r = record r { errors_counter = r.errors_counter + 1 }

unfoldable pub get_total_errors : Recorder → ℕ
get_total_errors r = r.errors_counter

unfoldable pub set_tx_pending_unapproved_transactions_count : ℤ → Recorder → Recorder
set_tx_pending_unapproved_transactions_count v r = record r {
  tx_pending_unapproved_transactions_count = v;
}

unfoldable pub set_tx_pending_approved_transactions_count : ℤ → Recorder → Recorder
set_tx_pending_approved_transactions_count v r = record r {
  tx_pending_approved_transactions_count = v;
}
