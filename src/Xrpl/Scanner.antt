-- ===== src/Xrpl/Scanner.antt =====
-- relayer/client/xrpl/scanner.go: the scans of the XRPL that are repeated until they are done, or
-- for ever.
pub mod Round
pub mod Covers
pub mod Repeat
pub mod History
pub mod Together
use tx_xrpl_token_migrator.Base.{
  Bool, true, false, Option, none, some, List, [], ◌∷◌, ◌++◌, if◌then◌else◌,
}
use tx_xrpl_token_migrator.Base.Int.{ℤ, pos, ◌+ℤ◌, ◌-ℤ◌, leb_ℤ, i64}
use tx_xrpl_token_migrator.Base.Str.{codes}
use tx_xrpl_token_migrator.Base.Go.{Go, ok, err, panics, ◌>>=◌, Error, Cause, new_error}
use tx_xrpl_token_migrator.Ripple.{Ripple, Account}
use tx_xrpl_token_migrator.Metric.Recorder.{Recorder, set_xrpl_latest_account_ledger_index}
use tx_xrpl_token_migrator.Xrpl.Model.{Transaction}
use tx_xrpl_token_migrator.Xrpl.Rpc.Types.{Node}
use tx_xrpl_token_migrator.Xrpl.Rpc.Call.{get_current_ledger}
use tx_xrpl_token_migrator.Xrpl.Rpc.Pages.{RpcClientConfig, Sent, subscribe_account_transactions}

-- How a repeated scan stands after some rounds: waiting for the next one, finished, stopped by
-- the cancelled context, or in a panic.
pub data Ending : Type 0 where
  waiting finished canceled crashed : Ending

-- `errors.Is(err, context.Canceled)`
abbrev pub is_canceled : Error → Bool
is_canceled e = elim e.cause [ Cause.canceled ↦ true | _ ↦ false ]

-- `doWithResubscribe`, on `retry.Do` of coreum-tools, which repeats a function as long as it
-- returns a retryable error. A round has its own outside; its result is none if it has not ended.
module _ {E S : Type 0} (repeat : Bool) (f : E → S → S × Option (Go (Unit {0}))) where
  unfoldable pub do_with_resubscribe : List E → S → S × Ending
  do_with_resubscribe [] s = (s, waiting)
  do_with_resubscribe (e ∷ es) s =
      let (s', r) = f e s in
      let rest = do_with_resubscribe es s' in
      elim r [
        | none ↦ (s', waiting)
        | some (ok _) ↦ if repeat then rest else (s', finished)
        | some (err x) ↦ if is_canceled x then (s', canceled) else rest
        | some panics ↦ (s', crashed)
      ]

-- `TxScannerConfig`
pub record TxScannerConfig : Type 0 where
  pub recent_scan_skip_last_indexes : ℤ

-- The variables of a scan: the last processed index, what has been sent to the channel, and the
-- metrics.
pub record Scan (R : Ripple) : Type 0 where
  pub index : ℤ
  pub trace : List (Transaction R)
  pub recorder : Recorder

-- The outside of a round of the recent scan.
pub record RecentRound (R : Ripple) : Type 0 where
  pub current : Node R
  pub nodes : List (Node R)

module _ (R : Ripple) (rpc : RpcClientConfig) (cfg : TxScannerConfig) (account : Account) where
  -- The function that fetches the initial ledger.
  unfoldable pub initial_round : Node R → ℤ → ℤ × Option (Go (Unit {0}))
  initial_round node initial_ledger = elim (get_current_ledger R node) [
    | ok ledger ↦ (ledger, some (ok tt))
    | err e ↦ (pos 0, some (err e))
    | panics ↦ (initial_ledger, some panics)
  ]

  -- The function of the history scan. Where it has not ended, the state is that before it.
  unfoldable pub history_round : ℤ → List (Node R) → Scan R → Scan R × Option (Go (Unit {0}))
  history_round end_ledger nodes s =
      elim (subscribe_account_transactions R rpc account (i64 (s.index +ℤ pos 1)) end_ledger
        nodes) [
          | none ↦ (s, none)
          | some r ↦ (record s { index = r.latest_index; trace = s.trace ++ r.sent }, some r.result)
        ]

  -- The function of the recent scan.
  unfoldable pub recent_round : RecentRound R → Scan R → Scan R × Option (Go (Unit {0}))
  recent_round round s = elim (get_current_ledger R round.current) [
    | err e ↦ (s, some (err e))
    | panics ↦ (s, some panics)
    | ok current_ledger ↦
        let end_ledger = i64 (current_ledger -ℤ cfg.recent_scan_skip_last_indexes) in
        elim (subscribe_account_transactions R rpc account (i64 (s.index +ℤ pos 1)) end_ledger
          round.nodes) [
            | none ↦ (s, none)
            | some r ↦ (
              record {
                index = r.latest_index;
                trace = s.trace ++ r.sent;
                recorder = set_xrpl_latest_account_ledger_index r.latest_index s.recorder;
              },
              some r.result,
            )
          ]
  ]

  -- The two scans that `Subscribe` starts, each with a schedule of rounds.
  unfoldable pub scans :
      ℤ
      → ℤ
      → Recorder
      → ℤ
      → List (List (Node R))
      → List (RecentRound R)
      → (Scan R × Ending) × (Scan R × Ending)
  scans history_scan_start_ledger recent_scan_indexes_back recorder initial_ledger history recent =
      let back = i64 (initial_ledger -ℤ recent_scan_indexes_back) in
      let start = i64 (history_scan_start_ledger -ℤ pos 1) in
      (
        do_with_resubscribe false (history_round back) history
            (record { index = start; trace = []; recorder = recorder }),
        do_with_resubscribe true recent_round recent
            (record { index = back; trace = []; recorder = recorder }),
      )

  -- `Subscribe`: none as long as the initial ledger is not fetched. It is refused where the recent
  -- scan does not look back.
  unfoldable pub subscribe :
      ℤ
      → ℤ
      → Recorder
      → List (Node R)
      → List (List (Node R))
      → List (RecentRound R)
      → Option (Go ((Scan R × Ending) × (Scan R × Ending)))
  unfolding scans
  subscribe history_scan_start_ledger recent_scan_indexes_back recorder initial history recent =
      if leb_ℤ recent_scan_indexes_back (pos 0)
      then some (err (new_error (codes "recentScanIndexesBack must be greater than zero")))
      else let (initial_ledger, ending) = do_with_resubscribe false initial_round initial (pos 0) in
        let started =
          scans history_scan_start_ledger recent_scan_indexes_back recorder initial_ledger history
            recent in
        elim ending [
          | Ending.waiting ↦ none
          | Ending.crashed ↦ some panics
          | Ending.finished ↦ some (ok started)
          | Ending.canceled ↦ some (ok started)
        ]
