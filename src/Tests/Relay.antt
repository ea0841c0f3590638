-- ===== src/Tests/Relay.antt =====
-- A burn of a sample history on its way to the contract.
use tx_xrpl_token_migrator.Base.{
  ◌≡◌, ◌≢◌, refl, sym, ap, ◌∙◌, subst, ◌↔◌, ◌⊎◌, true, false, none, some, List, [], ◌∷◌, All, Memᴰ,
  arith,
}
use tx_xrpl_token_migrator.Base.Int.{pos, ◌+ℤ◌, ◌-ℤ◌, ◌*ℤ◌, i64, quo}
use tx_xrpl_token_migrator.Base.Str.{codes, str_eq, has_suffix, trim_suffix}
use tx_xrpl_token_migrator.Base.Go.{ok}
use tx_xrpl_token_migrator.Metric.Recorder.{new_recorder}
use tx_xrpl_token_migrator.Xrpl.Model.{Transaction}
use tx_xrpl_token_migrator.Xrpl.Rpc.Types.{TxItem}
use tx_xrpl_token_migrator.Xrpl.Rpc.Convert.{
  hex_decode, hex_byte, convert_xrpl_date_to_time, convert_tx_info_to_transaction,
  convert_hex_memos_to_strings,
}
use tx_xrpl_token_migrator.Xrpl.Rpc.Call.{call_rpc, decode_response, wrap_err}
use tx_xrpl_token_migrator.Xrpl.Rpc.Pages.{
  account_tx_req, from_index, get_account_transactions, send_items, item_transaction,
  subscribe_pages, subscribe_account_transactions,
}
use tx_xrpl_token_migrator.Xrpl.Rpc.Pages.Lossless.{IsAbove}
use tx_xrpl_token_migrator.Xrpl.Scanner.{
  Ending, TxScannerConfig, Scan, do_with_resubscribe, history_round,
}
use tx_xrpl_token_migrator.Rat.{rat_mul, rat_abs, rat_ltb}
use tx_xrpl_token_migrator.Finder.Convert.{multiplier_rat, convert_xrpl_amount_to_tx_amount}
use tx_xrpl_token_migrator.Finder.Memo.{extract_address_from_memo}
use tx_xrpl_token_migrator.Finder.Burn.{tally_balance, received_at_least_delivered_amount}
use tx_xrpl_token_migrator.Finder.Forward.{Inbound, forward_pending}
use tx_xrpl_token_migrator.Finder.Build.{
  Pending, build_pending_transaction, convert_xrpl_amount_to_tx_coin, pay_out, verify_burn,
  check_token,
}
use tx_xrpl_token_migrator.Executor.{ContractClient, Event, start}
use tx_xrpl_token_migrator.Executor.Sends.{received}
use tx_xrpl_token_migrator.Executor.Attempt.{IsSettled}
use tx_xrpl_token_migrator.Relay.{IsRelayed, IsBacked, relay_history}
use tx_xrpl_token_migrator.Tests.Samples.{ripple, sdk, parser}
use tx_xrpl_token_migrator.Tests.Xrpl.{rpc}
use tx_xrpl_token_migrator.Tests.Window.{windowed, windowed-ServesAll}
use tx_xrpl_token_migrator.Tests.Finder.{issuer, ten, changed, effects, cfg, paid}
use tx_xrpl_token_migrator.Tests.Tx.{contract_cfg}

-- A burn in the history of the issuer: its memo is the text "tab/tx".
abbrev burn_item : TxItem ripple
burn_item = record {
  meta = record {
    delivered_amount = ten;
    transaction_result = codes "tesSUCCESS";
    affected_nodes = effects (changed 10 ∷ []);
  };
  base_tx = record {
    account = codes "U";
    destination = issuer;
    hash = codes "H";
    transaction_type = codes "Payment";
    date = pos 9;
    sequence = pos 1;
    memos = record { memo_data = codes "7461622F7478"; memo_type = [] } ∷ [];
  };
  ledger_index = pos 80;
  validated = true;
}

abbrev burn_txn : Transaction ripple
burn_txn = record {
  account = codes "U";
  destination = issuer;
  delivery_amount = ten;
  memos = codes "tab/tx" ∷ [];
  hash = codes "H";
  transaction_type = codes "Payment";
  transaction_result = codes "tesSUCCESS";
  ledger_index = pos 80;
  sequence = pos 1;
  date = pos 946_684_809_000_000_000;
  validated = true;
  affected_nodes = effects (changed 10 ∷ []);
}

abbrev history : List (TxItem ripple)
history = burn_item ∷ []

abbrev scanner : TxScannerConfig
scanner = record { recent_scan_skip_last_indexes = pos 4 }

abbrev before : Scan ripple
before = record { index = i64 (pos 70 -ℤ pos 1); trace = []; recorder = new_recorder }

abbrev after : Scan ripple × Ending
after =
    do_with_resubscribe false (history_round ripple rpc scanner (codes "A") (pos 85))
      ((windowed history ∷ []) ∷ []) before

scan_runs : (after.1 ≡ Ending.finished) × (after.0.trace ≡ burn_txn ∷ [])
unfolding do_with_resubscribe history_round subscribe_account_transactions subscribe_pages
    get_account_transactions send_items item_transaction call_rpc decode_response wrap_err
    convert_tx_info_to_transaction convert_hex_memos_to_strings convert_xrpl_date_to_time
    account_tx_req from_index hex_decode hex_byte ◌-ℤ◌ ◌+ℤ◌ ◌*ℤ◌ i64
scan_runs = (refl, refl)

abbrev inbound : List (Inbound ripple)
inbound = Inbound.receive burn_txn true ∷ []

abbrev accepting : ContractClient
accepting = record { send = λ sender requests. ok tt; contract_config = ok contract_cfg }

abbrev events : List Event
events = Event.receive paid (record { client = accepting; done = none } ∷ []) ∷ []

burn_pays : build_pending_transaction ripple sdk parser cfg burn_txn ≡ ok (some paid)
unfolding build_pending_transaction check_token verify_burn pay_out convert_xrpl_amount_to_tx_coin
    convert_xrpl_amount_to_tx_amount multiplier_rat extract_address_from_memo
    received_at_least_delivered_amount tally_balance str_eq has_suffix trim_suffix rat_mul rat_abs
    rat_ltb ◌*ℤ◌ ◌+ℤ◌ ◌-ℤ◌ quo
burn_pays = refl

finder_runs : forward_pending ripple sdk parser cfg inbound ≡ (paid ∷ [], Ending.waiting)
unfolding forward_pending
finder_runs = rw (burn_pays, forward_pending) refl

waiting-ne-crashed : Ending.waiting ≢ Ending.crashed
waiting-ne-crashed h = cc

alive : (forward_pending ripple sdk parser cfg inbound).1 ≢ Ending.crashed
alive c = waiting-ne-crashed (sym (ap (λ z. z.1) finder_runs) ∙ c)

channel :
    (p : Pending)
    → Memᴰ p (received events) ↔ Memᴰ p (forward_pending ripple sdk parser cfg inbound).0
channel p =
    (subst (Memᴰ p) (sym (ap (λ z. z.0) finder_runs)), subst (Memᴰ p) (ap (λ z. z.0) finder_runs))

relay_history_example :
    All
      (λ x.
        IsAbove ripple (pos 85) x
        ⊎ IsRelayed ripple sdk parser cfg (codes "s") events (start sdk (codes "s") events []).0 x)
      history
    × All
        (IsBacked ripple sdk parser cfg (codes "s") (burn_txn ∷ []))
        (start sdk (codes "s") events []).0
relay_history_example =
    relay_history ripple sdk parser cfg (codes "s") inbound events (refl, tt) alive channel rpc
      scanner (codes "A") history (pos 70) (omega arith, omega arith, tt) (pos 70) new_recorder
      (omega arith, omega arith) (omega arith, omega arith, tt) (pos 85)
      ((windowed history ∷ []) ∷ []) (windowed-ServesAll history, tt) scan_runs.0 scan_runs.1
      (
        (
          [],
          record { client = accepting; done = none },
          [],
          refl,
          tt,
          IsSettled.is_sent contract_cfg refl refl,
        ),
        tt,
      )
