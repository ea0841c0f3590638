-- ===== src/Relay.antt =====
-- The way of a transfer through the relayer: the history scan of relayer/client/xrpl/scanner.go
-- feeds the finder of relayer/finder/finder.go, and this the executor of
-- relayer/executor/executor.go.
use tx_xrpl_token_migrator.Base.{
  ◌≡◌, ◌≢◌, subst, ◌↔◌, ◌⊎◌, inl, inr, true, false, List, [], All, All-map, Memᴰ,
}
use tx_xrpl_token_migrator.Base.Int.{ℤ}
use tx_xrpl_token_migrator.Base.Go.{ok}
use tx_xrpl_token_migrator.Rat.{RatParser}
use tx_xrpl_token_migrator.Ripple.{Ripple, Account}
use tx_xrpl_token_migrator.Sdk.{Sdk, Address}
use tx_xrpl_token_migrator.Metric.Recorder.{Recorder}
use tx_xrpl_token_migrator.Xrpl.Model.{Transaction}
use tx_xrpl_token_migrator.Xrpl.Rpc.Types.{TxItem, Node}
use tx_xrpl_token_migrator.Xrpl.Rpc.Pages.{RpcClientConfig, item_transaction}
use tx_xrpl_token_migrator.Xrpl.Rpc.Pages.Lossless.{IsLedger, Ascending, IsAbove}
use tx_xrpl_token_migrator.Xrpl.Scanner.{
  Ending, TxScannerConfig, do_with_resubscribe, history_round,
}
use tx_xrpl_token_migrator.Xrpl.Scanner.Covers.{ServesAll}
use tx_xrpl_token_migrator.Xrpl.Scanner.History.{fresh, history_scan_complete}
use tx_xrpl_token_migrator.Finder.Build.{Pending, Config}
use tx_xrpl_token_migrator.Finder.Build.Accepts.{IsBurn}
use tx_xrpl_token_migrator.Finder.Forward.{Inbound, forward_pending}
use tx_xrpl_token_migrator.Finder.Forward.Exact.{inbound_txs, IsTaken, HasBurn, forward_exact}
use tx_xrpl_token_migrator.Executor.{Submitted, Round, Event, request_of, start}
use tx_xrpl_token_migrator.Executor.Sends.{received, start_sends}
use tx_xrpl_token_migrator.Executor.Settles.{IsFinishing, IsHandled, start_handles}

module _ (R : Ripple) (S : Sdk) (P : RatParser) (cfg : Config) (sender_address : Address) where
  -- The transaction of an item, if it is a burn, is handled by the executor.
  abbrev pub IsRelayed : List Event → List Submitted → TxItem R → Type 0
  IsRelayed events trace x =
      (txn : Transaction R) × (item_transaction R x ≡ ok (txn, true))
      × ((p : Pending)
          → IsBurn R S P cfg txn p
          → (rounds : List Round) × (Memᴰ (Event.receive p rounds) events)
            × IsHandled S sender_address trace p rounds)

  -- A request pays out a burn among these transactions.
  abbrev pub IsBacked : List (Transaction R) → Submitted → Type 0
  IsBacked txns sub = (p : Pending) × (sub.request ≡ request_of S p) × HasBurn R S P cfg txns p

  module _ (inbound : List (Inbound R)) (events : List Event) (all_taken : All IsTaken inbound)
      (alive : (forward_pending R S P cfg inbound).1 ≢ Ending.crashed)
      (channel : (p : Pending)
        → Memᴰ p (received events) ↔ Memᴰ p (forward_pending R S P cfg inbound).0) where
    relay_handles :
        (p : Pending)
        → All (IsFinishing S sender_address) events
        → HasBurn R S P cfg (inbound_txs inbound) p
        → (rounds : List Round) × (Memᴰ (Event.receive p rounds) events)
          × IsHandled S sender_address (start S sender_address events []).0 p rounds
    relay_handles p finishing burn =
        start_handles S sender_address events [] p finishing
          ((channel p).1 ((forward_exact R S P cfg inbound p all_taken alive).1 burn))

    -- Where the executor receives what the finder has sent, each request that it submits pays out
    -- a burn among the transactions that the finder has received from the scan.
    relay-IsBacked : All (IsBacked (inbound_txs inbound)) (start S sender_address events []).0
    relay-IsBacked =
        All-map (start S sender_address events []).0
          (λ sub (p, m, same, least).
            (p, same, (forward_exact R S P cfg inbound p all_taken alive).0 ((channel p).0 m)))
          (start_sends S sender_address events)

    -- From the history of the XRPL to the contract. Let the history scan have finished, after rounds
    -- of which any may have failed, on nodes that page the history as documented, in the order of
    -- its ledgers; let the finder have received what the scan sent, and the executor what the
    -- finder sent, with the retry of each transfer getting to a round that settles it. Then each
    -- transaction of the history from the start ledger up to the end ledger has reached the finder,
    -- and if it is a burn, the evidence of its transfer has been submitted, unless its amount was
    -- below the least amount of the contract's configuration; and each request that was submitted
    -- pays out a burn that the scan had sent.
    pub relay_history :
        (rpc : RpcClientConfig) (scanner : TxScannerConfig) (account : Account)
        (history : List (TxItem R)) (low : ℤ) (asc : Ascending R low history) (from : ℤ)
        (recorder : Recorder) (l : IsLedger from) (from_start : Ascending R from history)
        (end_ledger : ℤ) (rounds : List (List (Node R)))
        → All (ServesAll R rpc account history) rounds
        → (do_with_resubscribe false
            (history_round R rpc scanner account end_ledger)
            rounds
            (fresh R rpc scanner account history low asc from recorder l from_start)).1
          ≡ Ending.finished
        → (do_with_resubscribe false
            (history_round R rpc scanner account end_ledger)
            rounds
            (fresh R rpc scanner account history low asc from recorder l from_start)).0.trace
          ≡ inbound_txs inbound
        → All (IsFinishing S sender_address) events
        → All
            (λ x. IsAbove R end_ledger x ⊎ IsRelayed events (start S sender_address events []).0 x)
            history
          × All (IsBacked (inbound_txs inbound)) (start S sender_address events []).0
    relay_history rpc scanner account history low asc from recorder l from_start end_ledger rounds
          good fin same finishing =
        (
          All-map history
              (λ x h. elim h [
                | inr above ↦ inl above
                | inl (txn, e, m) ↦ inr (
                  txn,
                  e,
                  λ p burn. relay_handles p finishing (txn, subst (Memᴰ txn) same m, burn),
                )
              ])
              (history_scan_complete R rpc scanner account history low asc from recorder l
                from_start end_ledger rounds good fin),
          relay-IsBacked,
        )
