-- ===== src/Tests/Scanner.antt =====
-- The scans of the XRPL on the sample history, with a node that serves any window of it.
use tx_xrpl_token_migrator.Base.{arith, refl, ◌⊎◌, true, List, [], ◌∷◌, All}
use tx_xrpl_token_migrator.Base.Int.{pos, ◌+ℤ◌, ◌-ℤ◌, ◌*ℤ◌, i64}
use tx_xrpl_token_migrator.Base.Str.{codes}
use tx_xrpl_token_migrator.Metric.Recorder.{new_recorder}
use tx_xrpl_token_migrator.Xrpl.Rpc.Convert.{
  convert_xrpl_date_to_time, convert_tx_info_to_transaction, convert_hex_memos_to_strings,
}
use tx_xrpl_token_migrator.Xrpl.Rpc.Call.{call_rpc, decode_response, wrap_err}
use tx_xrpl_token_migrator.Xrpl.Rpc.Pages.{
  account_tx_req, from_index, get_account_transactions, send_items, item_transaction,
  subscribe_pages, subscribe_account_transactions,
}
use tx_xrpl_token_migrator.Xrpl.Rpc.Pages.Lossless.{WasSent, IsAbove}
use tx_xrpl_token_migrator.Xrpl.Scanner.{
  do_with_resubscribe, TxScannerConfig, Scan, RecentRound, history_round, recent_round, scans,
}
use tx_xrpl_token_migrator.Xrpl.Scanner.Covers.{Covers}
use tx_xrpl_token_migrator.Xrpl.Scanner.History.{history_scan_complete, recent_scan_no_gap}
use tx_xrpl_token_migrator.Xrpl.Scanner.Together.{subscribe_no_gap}
use tx_xrpl_token_migrator.Tests.Samples.{ripple}
use tx_xrpl_token_migrator.Tests.Xrpl.{rpc, txn, items, items-Ascending, start-IsLedger}
use tx_xrpl_token_migrator.Tests.Window.{windowed, windowed-ServesAll}

scanner : TxScannerConfig
scanner = record { recent_scan_skip_last_indexes = pos 4 }

abbrev start_scan : Scan ripple
start_scan = record { index = i64 (pos 70 -ℤ pos 1); trace = []; recorder = new_recorder }

history_scan_complete_example :
    All (λ x. WasSent ripple (txn 80 ∷ []) x ⊎ IsAbove ripple (pos 85) x) items
unfolding do_with_resubscribe history_round subscribe_account_transactions subscribe_pages
    get_account_transactions send_items item_transaction call_rpc decode_response wrap_err
    convert_tx_info_to_transaction convert_hex_memos_to_strings convert_xrpl_date_to_time
    account_tx_req from_index ◌-ℤ◌ ◌+ℤ◌ ◌*ℤ◌ i64
history_scan_complete_example =
    history_scan_complete ripple rpc scanner (codes "A") items (pos 70) items-Ascending (pos 70)
      new_recorder start-IsLedger items-Ascending (pos 85) ((windowed items ∷ []) ∷ [])
      ((windowed-ServesAll items), tt) refl

abbrev recent : List (RecentRound ripple)
recent = record { current = windowed items; nodes = windowed items ∷ [] } ∷ []

recent_scan_no_gap_example :
    Covers ripple rpc
      (codes "A")
      items
      (do_with_resubscribe true
        (recent_round ripple rpc scanner (codes "A"))
        recent
        start_scan).0.index
      (do_with_resubscribe true
        (recent_round ripple rpc scanner (codes "A"))
        recent
        start_scan).0.trace
recent_scan_no_gap_example =
    recent_scan_no_gap ripple rpc scanner (codes "A") items (pos 70) items-Ascending (pos 70)
      new_recorder start-IsLedger items-Ascending recent ((windowed-ServesAll items), tt)

subscribe_no_gap_example :
    All
      (λ x.
        WasSent ripple
          (scans ripple rpc scanner
            (codes "A")
            (pos 70)
            (pos 3)
            new_recorder
            (pos 88)
            ((windowed items ∷ []) ∷ [])
            recent).0.0.trace
          x
        ⊎ (WasSent ripple
              (scans ripple rpc scanner
                (codes "A")
                (pos 70)
                (pos 3)
                new_recorder
                (pos 88)
                ((windowed items ∷ []) ∷ [])
                recent).1.0.trace
              x
            ⊎ IsAbove ripple
                (scans ripple rpc scanner
                  (codes "A")
                  (pos 70)
                  (pos 3)
                  new_recorder
                  (pos 88)
                  ((windowed items ∷ []) ∷ [])
                  recent).1.0.index
                x))
      items
unfolding scans do_with_resubscribe history_round subscribe_account_transactions subscribe_pages
    get_account_transactions send_items item_transaction call_rpc decode_response wrap_err
    convert_tx_info_to_transaction convert_hex_memos_to_strings convert_xrpl_date_to_time
    account_tx_req from_index ◌-ℤ◌ ◌+ℤ◌ ◌*ℤ◌ i64
subscribe_no_gap_example =
    subscribe_no_gap ripple rpc scanner (codes "A") items (pos 70) items-Ascending (pos 70)
      new_recorder start-IsLedger items-Ascending (pos 3) (pos 88) ((windowed items ∷ []) ∷ [])
      recent (omega arith) (omega arith) ((windowed-ServesAll items), tt)
      ((windowed-ServesAll items), tt) refl
