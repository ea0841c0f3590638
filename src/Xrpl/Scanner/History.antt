-- ===== src/Xrpl/Scanner/History.antt =====
-- The history scan and the recent scan of `Subscribe` lose no transaction, whatever rounds fail.
use mathlib.Core.Option.{none-ne-some, some-injective}
use tx_xrpl_token_migrator.Base.{
  ◌≡◌, subst, ◌⊎◌, inl, inr, true, false, some, List, [], All, All-map, Option-cases,
}
use tx_xrpl_token_migrator.Base.Int.{ℤ, pos, ◌+ℤ◌, ◌-ℤ◌, i64, int_laws}
use tx_xrpl_token_migrator.Base.Go.{ok, Go-cases}
use tx_xrpl_token_migrator.Ripple.{Ripple, Account}
use tx_xrpl_token_migrator.Metric.Recorder.{Recorder}
use tx_xrpl_token_migrator.Xrpl.Rpc.Types.{TxItem, Node}
use tx_xrpl_token_migrator.Xrpl.Rpc.Call.{get_current_ledger}
use tx_xrpl_token_migrator.Xrpl.Rpc.Pages.{RpcClientConfig, subscribe_account_transactions}
use tx_xrpl_token_migrator.Xrpl.Rpc.Pages.Lossless.{
  IsLedger, Ascending, WasSent, IsAbove, Ascending-before, i64-before,
}
use tx_xrpl_token_migrator.Xrpl.Scanner.{
  Ending, do_with_resubscribe, TxScannerConfig, Scan, RecentRound, history_round, recent_round,
}
use tx_xrpl_token_migrator.Xrpl.Scanner.Covers.{Covers, ServesAll, round-Covers, round_sends}
use tx_xrpl_token_migrator.Xrpl.Scanner.Repeat.{resubscribe-keeps, resubscribe-Done}

module _ (R : Ripple) (rpc : RpcClientConfig) (cfg : TxScannerConfig) (account : Account)
    (history : List (TxItem R)) (low : ℤ) (asc : Ascending R low history) where
  abbrev pub Kept : Scan R → Type 0
  Kept s = Covers R rpc account history s.index s.trace

  abbrev Complete : ℤ → Scan R → Type 0
  Complete end_ledger s = All (λ x. WasSent R s.trace x ⊎ IsAbove R end_ledger x) history

  abbrev pub Good : List (Node R) → Type 0
  Good = ServesAll R rpc account history

  history_round-Kept :
      (end_ledger : ℤ) (nodes : List (Node R)) (s : Scan R)
      → Good nodes
      → Kept s
      → Kept (history_round R rpc cfg account end_ledger nodes s).0
  unfolding history_round
  history_round-Kept end_ledger nodes s good k =
      elim (Option-cases
        (subscribe_account_transactions R rpc account (i64 (s.index +ℤ pos 1)) end_ledger nodes)) [
          | inl e ↦ rw (e, history_round) k
          | inr (r, e) ↦
              rw (e, history_round)
                (round-Covers R rpc account history low end_ledger s.index s.trace nodes r asc k
                  good e)
        ]

  history_round-Complete :
      (end_ledger : ℤ) (nodes : List (Node R)) (s : Scan R)
      → Good nodes
      → Kept s
      → (history_round R rpc cfg account end_ledger nodes s).1 ≡ some (ok tt)
      → Complete end_ledger (history_round R rpc cfg account end_ledger nodes s).0
  unfolding history_round
  history_round-Complete end_ledger nodes s good k h =
      elim (Option-cases
        (subscribe_account_transactions R rpc account (i64 (s.index +ℤ pos 1)) end_ledger nodes)) [
          | inl e ↦ absurd (none-ne-some _ (rw (e, history_round) at h))
          | inr (r, e) ↦
              rw (e, history_round)
                (round_sends R rpc account history low end_ledger s.index s.trace nodes r asc k good
                  e (some-injective _ _ (rw (e, history_round) at h)))
        ]

  pub recent_round-Kept :
      (round : RecentRound R) (s : Scan R)
      → Good round.nodes
      → Kept s
      → Kept (recent_round R rpc cfg account round s).0
  unfolding recent_round
  recent_round-Kept round s good k = elim (Go-cases (get_current_ledger R round.current)) [
    | inl (current, c) ↦
        elim (Option-cases (
          subscribe_account_transactions R rpc account (i64 (s.index +ℤ pos 1))
            (i64 (current -ℤ cfg.recent_scan_skip_last_indexes)) round.nodes)) [
              | inl e ↦ rw (c, e, recent_round) k
              | inr (r, e) ↦
                  rw (c, e, recent_round)
                    (round-Covers R rpc account history low _ s.index s.trace round.nodes r asc k
                      good e)
            ]
    | inr (inl (x, c)) ↦ rw (c, recent_round) k
    | inr (inr c) ↦ rw (c, recent_round) k
  ]

  module _ (start : ℤ) (recorder : Recorder) (l : IsLedger start)
      (from_start : Ascending R start history) where
    -- A scan that has sent nothing, from the start ledger on.
    abbrev pub fresh : Scan R
    fresh = record { index = i64 (start -ℤ pos 1); trace = []; recorder = recorder }

    fresh-Kept : Kept fresh
    fresh-Kept = rw (i64-before start l) (record {
      from_zero = omega (int_laws, l.0);
      in_range = omega (int_laws, l.1);
      kept =
          All-map history (λ x a. inr (subst (λ i. IsAbove R i x) (i64-before start l) a))
            (Ascending-before R start history l from_start);
    })

    -- Whatever rounds of the history scan fail, the scan has no gap: each transaction of the
    -- account's history from the start ledger on has been sent or lies above the scan's index,
    -- from where the next round goes on. The nodes page the history as documented, in the order of
    -- its ledgers.
    pub history_scan_no_gap :
        (end_ledger : ℤ) (rounds : List (List (Node R)))
        → All Good rounds
        → Covers R rpc account history
            (do_with_resubscribe false
              (history_round R rpc cfg account end_ledger)
              rounds
              fresh).0.index
            (do_with_resubscribe false
              (history_round R rpc cfg account end_ledger)
              rounds
              fresh).0.trace
    history_scan_no_gap end_ledger rounds good =
        resubscribe-keeps false (history_round R rpc cfg account end_ledger) Good Kept
          (history_round-Kept end_ledger) rounds fresh good fresh-Kept

    -- When the history scan has finished, after rounds of which any may have failed, each
    -- transaction of the account's history from the start ledger on has been sent or lies above
    -- the end ledger. The nodes page the history as documented, in the order of its ledgers.
    pub history_scan_complete :
        (end_ledger : ℤ) (rounds : List (List (Node R)))
        → All Good rounds
        → (do_with_resubscribe false (history_round R rpc cfg account end_ledger) rounds fresh).1
          ≡ Ending.finished
        → All
            (λ x.
              WasSent R
                (do_with_resubscribe false
                  (history_round R rpc cfg account end_ledger)
                  rounds
                  fresh).0.trace
                x
              ⊎ IsAbove R end_ledger x)
            history
    history_scan_complete end_ledger rounds good fin =
        resubscribe-Done false (history_round R rpc cfg account end_ledger) Good Kept
          (history_round-Kept end_ledger) (Complete end_ledger) (history_round-Complete end_ledger)
          rounds fresh good fresh-Kept fin

    -- Whatever rounds of the recent scan fail and wherever the ledger stands in each, the scan has
    -- no gap: each transaction of the account's history from the start ledger on has been sent or
    -- lies above the scan's index, from where the next round goes on. The nodes page the history as
    -- documented, in the order of its ledgers.
    pub recent_scan_no_gap :
        (rounds : List (RecentRound R))
        → All (λ round. Good round.nodes) rounds
        → Covers R rpc account history
            (do_with_resubscribe true (recent_round R rpc cfg account) rounds fresh).0.index
            (do_with_resubscribe true (recent_round R rpc cfg account) rounds fresh).0.trace
    recent_scan_no_gap rounds good =
        resubscribe-keeps true (recent_round R rpc cfg account) (λ round. Good round.nodes) Kept
          recent_round-Kept rounds fresh good fresh-Kept
