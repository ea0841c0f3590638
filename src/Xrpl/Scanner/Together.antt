-- ===== src/Xrpl/Scanner/Together.antt =====
-- The two scans that `Subscribe` starts leave no gap between them.
use tx_xrpl_token_migrator.Base.{
  ◌≡◌, refl, sym, ap, subst, ◌⊎◌, inl, inr, Bool, true, Option, List, [], ◌∷◌, ◌++◌, append_assoc,
  append-nil, mem-append_cases, ◌^◌, All, All-map, Bool-cases, Option-cases,
}
use tx_xrpl_token_migrator.Base.Int.{ℤ, pos, ◌+ℤ◌, ◌-ℤ◌, ◌≤ℤ◌, ◌<ℤ◌, i64}
use tx_xrpl_token_migrator.Base.Go.{Go, Go-cases}
use tx_xrpl_token_migrator.Ripple.{Ripple, Account}
use tx_xrpl_token_migrator.Metric.Recorder.{Recorder}
use tx_xrpl_token_migrator.Xrpl.Model.{Transaction}
use tx_xrpl_token_migrator.Xrpl.Rpc.Types.{TxItem, Node}
use tx_xrpl_token_migrator.Xrpl.Rpc.Call.{get_current_ledger}
use tx_xrpl_token_migrator.Xrpl.Rpc.Pages.{RpcClientConfig, subscribe_account_transactions}
use tx_xrpl_token_migrator.Xrpl.Rpc.Pages.Lossless.{IsLedger, Ascending, WasSent, IsAbove}
use tx_xrpl_token_migrator.Xrpl.Scanner.{
  Ending, is_canceled, do_with_resubscribe, TxScannerConfig, Scan, RecentRound, recent_round, scans,
}
use tx_xrpl_token_migrator.Xrpl.Scanner.Covers.{Covers, ServesAll}
use tx_xrpl_token_migrator.Xrpl.Scanner.Repeat.{resubscribe-keeps}
use tx_xrpl_token_migrator.Xrpl.Scanner.History.{Kept, history_scan_complete, recent_round-Kept}

-- A repeated function that commutes with a change of the state.
module _ {E S : Type 0} (repeat : Bool) (f : E → S → S × Option (Go (Unit {0}))) (change : S → S)
    (commutes : (e : E) (s : S) → f e (change s) ≡ (change (f e s).0, (f e s).1)) where
  resubscribe-change :
      (es : List E) (s : S)
      → do_with_resubscribe repeat f es (change s)
        ≡ (change (do_with_resubscribe repeat f es s).0, (do_with_resubscribe repeat f es s).1)
  unfolding do_with_resubscribe
  resubscribe-change [] s = refl
  resubscribe-change (e ∷ es) s =
      let rest = resubscribe-change es (f e s).0 in
      let state : (f e (change s)).0 ≡ change (f e s).0 = ap (λ z. z.0) (commutes e s) in
      let same : (f e (change s)).1 ≡ (f e s).1 = ap (λ z. z.1) (commutes e s) in
      elim (Option-cases (f e s).1) [
        | inl n ↦ rw (same, n, state, do_with_resubscribe) refl
        | inr (r, y) ↦ elim (Go-cases r) [
          | inl (u, e') ↦ elim (Bool-cases repeat) [
            | inl again ↦ rw (same, y, e', again, state, do_with_resubscribe) rest
            | inr once ↦ rw (same, y, e', once, state, do_with_resubscribe) refl
          ]
          | inr (inl (x, e')) ↦ elim (Bool-cases (is_canceled x)) [
            | inl stops ↦ rw (same, y, e', stops, state, do_with_resubscribe) refl
            | inr goes ↦ rw (same, y, e', goes, state, do_with_resubscribe) rest
          ]
          | inr (inr e') ↦ rw (same, y, e', state, do_with_resubscribe) refl
        ]
      ]

module _ (R : Ripple) (rpc : RpcClientConfig) (cfg : TxScannerConfig) (account : Account) where
  -- The scan as it is after transactions that were sent before.
  abbrev after : List (Transaction R) → Scan R → Scan R
  after sent s = record s { trace = sent ++ s.trace }

  recent_round-after :
      (sent : List (Transaction R)) (round : RecentRound R) (s : Scan R)
      → recent_round R rpc cfg account round (after sent s) ≡ (
        after sent (recent_round R rpc cfg account round s).0,
        (recent_round R rpc cfg account round s).1,
      )
  unfolding recent_round
  recent_round-after sent round s = elim (Go-cases (get_current_ledger R round.current)) [
    | inl (current, c) ↦
        elim (Option-cases (
          subscribe_account_transactions R rpc account (i64 (s.index +ℤ pos 1))
            (i64 (current -ℤ cfg.recent_scan_skip_last_indexes)) round.nodes)) [
              | inl e ↦ rw (c, e, recent_round) refl
              | inr (r, e) ↦ rw (c, e, recent_round, append_assoc sent s.trace r.sent) refl
            ]
    | inr (inl (x, c)) ↦ rw (c, recent_round) refl
    | inr (inr c) ↦ rw (c, recent_round) refl
  ]

  sent_by_one :
      (first second : List (Transaction R)) (x : TxItem R)
      → WasSent R (first ++ second) x
      → WasSent R first x ⊎ WasSent R second x
  sent_by_one first second x (t, converted, m) = elim (mem-append_cases first m) [
    | inl k ↦ inl (t, converted, k)
    | inr k ↦ inr (t, converted, k)
  ]

  split_sent :
      (sent later : List (Transaction R)) (index : ℤ) (x : TxItem R)
      → WasSent R (sent ++ later) x ⊎ IsAbove R index x
      → WasSent R sent x ⊎ (WasSent R later x ⊎ IsAbove R index x)
  split_sent sent later index x (inr a) = inr (inr a)
  split_sent sent later index x (inl w) = elim (sent_by_one sent later x w) [
    | inl k ↦ inl k
    | inr k ↦ inr (inl k)
  ]

  -- The recent scan together with what the history scan has sent.
  module _ (history : List (TxItem R)) (low : ℤ) (asc : Ascending R low history) (start : ℤ)
      (recorder : Recorder) (l : IsLedger start) (from_start : Ascending R start history) where
    -- The recent scan that has not begun.
    abbrev opening : ℤ → Scan R
    opening back = record { index = back; trace = []; recorder = recorder }

    -- The recent scan goes on from what has been sent up to its first index.
    recent-Covers :
        (sent : List (Transaction R)) (back : ℤ) (recent : List (RecentRound R))
        → pos 0 ≤ℤ back
        → back <ℤ pos (2 ^ 62)
        → All (λ round. ServesAll R rpc account history round.nodes) recent
        → All (λ x. WasSent R sent x ⊎ IsAbove R back x) history
        → Covers R rpc account history
            (do_with_resubscribe true
              (recent_round R rpc cfg account)
              recent
              (opening back)).0.index
            (sent
              ++ (do_with_resubscribe true
                  (recent_round R rpc cfg account)
                  recent
                  (opening back)).0.trace)
    recent-Covers sent back recent from_zero in_range good covered =
        let before : Kept R rpc cfg account history low asc (after sent (opening back)) = record {
          from_zero = from_zero;
          in_range = in_range;
          kept =
              subst (λ t. All (λ x. WasSent R t x ⊎ IsAbove R back x) history)
                (sym (append-nil sent)) covered;
        } in
        let kept =
          resubscribe-keeps true (recent_round R rpc cfg account)
            (λ round. ServesAll R rpc account history round.nodes)
            (Kept R rpc cfg account history low asc)
            (recent_round-Kept R rpc cfg account history low asc) recent (after sent (opening back))
            good before in
        subst (Kept R rpc cfg account history low asc)
          (ap (λ z. z.0)
            (resubscribe-change true (recent_round R rpc cfg account) (after sent)
              (recent_round-after sent) recent (opening back)))
          kept

    -- Let the history scan of `Subscribe` have finished, on nodes that page the history as
    -- documented, in the order of its ledgers. Then, whatever rounds of the two scans fail and
    -- wherever the ledger stands in each round of the recent scan, they have left no gap between
    -- them: each transaction of the history from the start ledger on has been sent by the one scan
    -- or by the other, or lies above the index of the recent scan, from where its next round goes on.
    -- The ledger from which the recent scan looks on, the initial one less the indexes to look back,
    -- is not negative and below 2 ^ 62.
    pub subscribe_no_gap :
        (recent_back initial_ledger : ℤ) (rounds : List (List (Node R)))
        (recent : List (RecentRound R))
        → pos 0 ≤ℤ i64 (initial_ledger -ℤ recent_back)
        → i64 (initial_ledger -ℤ recent_back) <ℤ pos (2 ^ 62)
        → All (ServesAll R rpc account history) rounds
        → All (λ round. ServesAll R rpc account history round.nodes) recent
        → (scans R rpc cfg account start recent_back recorder initial_ledger rounds recent).0.1
          ≡ Ending.finished
        → All
            (λ x.
              WasSent R
                (scans R rpc cfg account start recent_back recorder initial_ledger rounds
                  recent).0.0.trace
                x
              ⊎ (WasSent R
                    (scans R rpc cfg account start recent_back recorder initial_ledger rounds
                      recent).1.0.trace
                    x
                  ⊎ IsAbove R
                      (scans R rpc cfg account start recent_back recorder initial_ledger rounds
                        recent).1.0.index
                      x))
            history
    unfolding scans
    subscribe_no_gap recent_back initial_ledger rounds recent from_zero in_range good good' fin =
        let back = i64 (initial_ledger -ℤ recent_back) in
        let sent =
          history_scan_complete R rpc cfg account history low asc start recorder l from_start back
            rounds good fin in
        let covers = recent-Covers _ back recent from_zero in_range good' sent in
        All-map history
          (split_sent _ _
            (scans R rpc cfg account start recent_back recorder initial_ledger rounds
              recent).1.0.index)
          covers.kept
