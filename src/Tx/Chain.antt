-- ===== src/Tx/Chain.antt =====
-- relayer/client/tx/chain.go: the transactions of an address, page by page from the latest on.
pub mod Fill
pub mod Page
pub mod Since
use tx_xrpl_token_migrator.Base.{
  ℕ, zero, suc, ◌+◌, ◌/◌, ◌%◌, ◌==◌, Bool, true, false, Option, none, some, List, [], ◌∷◌, ◌++◌,
  if◌then◌else◌,
}
use tx_xrpl_token_migrator.Base.Int.{ℤ, ltb_ℤ}
use tx_xrpl_token_migrator.Base.Str.{Str, codes}
use tx_xrpl_token_migrator.Base.Go.{Go, ok, err, panics, ◌>>=◌, new_error}
use tx_xrpl_token_migrator.Xrpl.Model.{Time}

-- `sdk.TxResponse`, as far as the paging reads it.
pub record ChainTx : Type 0 where
  pub tx_hash : Str
  pub height : ℕ
  pub timestamp : Str
  pub code : ℕ

-- `sdk.SearchTxsResult`
pub record SearchTxsResult : Type 0 where
  pub page_total : ℕ
  pub txs : List ChainTx

-- The node's `ResultTx`, as far as it is read: the bytes of the transaction, and what
-- `sdk.NewResponseResultTx` takes over.
pub record ResultTx : Type 0 where
  pub tx : Str
  pub tx_hash : Str
  pub height : ℕ
  pub code : ℕ

-- `ResultTxSearch`
pub record ResultTxSearch : Type 0 where
  pub txs : List ResultTx
  pub total_count : ℕ

-- What a transaction is decoded to by the `TxDecoder`, if it is: a value with `AsAny` or not.
pub data Decoded : Type 0 where
  refused other into_any : Decoded

-- What is not part of the repository: the node, if there is one, the decoder of transactions, the
-- number of pages that `sdk.NewSearchTxsResult` computes from a count and a limit, and the printer
-- and the parser of times.
pub record Search : Type 0 where
  pub has_node : Bool
  pub tx_search : Str → ℕ → ℕ → Go ResultTxSearch
  pub block_time : ℕ → Go Time
  pub decode_tx : Str → Decoded
  pub page_count : ℕ → ℕ → ℕ
  pub time_string : Time → Str
  pub parse_timestamp : Str → Option Time

module _ (Q : Search) where
  -- `mkTxResult`
  unfoldable pub mk_tx_result : ResultTx → Go ChainTx
  mk_tx_result res_tx = elim (Q.decode_tx res_tx.tx) [
    | Decoded.refused ↦ err (new_error (codes "failed to decode tx"))
    | Decoded.other ↦ err (new_error (codes "expecting a type implementing intoAny"))
    | Decoded.into_any ↦ ok (record {
      tx_hash = res_tx.tx_hash;
      height = res_tx.height;
      timestamp = [];
      code = res_tx.code;
    })
  ]

  -- `formatTxResults`
  unfoldable pub format_tx_results : List ResultTx → Go (List ChainTx)
  unfolding mk_tx_result
  format_tx_results [] = ok []
  format_tx_results (res_tx ∷ res_txs) =
      mk_tx_result res_tx >>= λ tx. format_tx_results res_txs >>= λ txs. ok (tx ∷ txs)

  -- The tasks of the worker pool: each fills in the time of one transaction. They touch nothing of
  -- one another but a list of errors, of which it is only read whether it is empty, so that their
  -- order does not matter; here they run in the order of the transactions.
  unfoldable pub fill_timestamps : List ChainTx → Go (List ChainTx)
  fill_timestamps [] = ok []
  fill_timestamps (tx ∷ txs) =
      let rest = fill_timestamps txs in
      elim (Q.block_time tx.height) [
        | panics ↦ panics
        | err _ ↦ rest >>= λ _. err (new_error (codes "failed to fill tx timestamp"))
        | ok time ↦ rest >>= λ filled. ok (record tx { timestamp = Q.time_string time } ∷ filled)
      ]

  -- `queryTxsByEvents`, for one event, in descending order.
  unfoldable pub query_txs_by_events : Str → ℕ → ℕ → Go SearchTxsResult
  unfolding format_tx_results fill_timestamps
  query_txs_by_events event page limit =
      if Q.has_node
      then Q.tx_search event page limit >>= (λ res_txs. format_tx_results res_txs.txs >>= λ txs.
          fill_timestamps txs >>= λ filled.
          ok (record { page_total = Q.page_count res_txs.total_count limit; txs = filled }))
      else err (new_error (codes "the RPC node is not initialized"))

module _ (Q : Search) (event : Str) (events_page_size : ℕ) (start_date : Time) where
  -- The loop over a page: what is kept, and whether the start date is reached.
  unfoldable pub scan_page : List ChainTx → List ChainTx → Go (List ChainTx × Bool)
  scan_page [] txs = ok (txs, false)
  scan_page (tx ∷ page) txs =
      let skipped = scan_page page txs in
      let kept = scan_page page (txs ++ tx ∷ []) in
      elim (Q.parse_timestamp tx.timestamp) [
        | none ↦ err (new_error (codes "parsing time"))
        | some timestamp ↦
            if ltb_ℤ timestamp start_date
            then ok (txs, true)
            else if tx.code == 0
            then kept
            else skipped
      ]

  -- The loop over the pages that are left, from a page on.
  unfoldable pub fetch_pages : ℕ → ℕ → List ChainTx → Go (List ChainTx)
  unfolding scan_page
  fetch_pages zero page txs = ok txs
  fetch_pages (suc left) page txs =
      let more = λ (found : List ChainTx). fetch_pages left (page + 1) found in
      query_txs_by_events Q event page events_page_size >>= λ res.
      scan_page res.txs txs >>= λ (found, stop). if stop then ok found else more found

  -- `pagesTotal`
  unfoldable pub pages_total : ℕ → ℕ
  pages_total total =
      if total % events_page_size == 0
      then total / events_page_size
      else total / events_page_size + 1

  -- `queryTransactionsByEvents`
  unfoldable pub query_transactions_by_events : Go (List ChainTx)
  unfolding fetch_pages pages_total
  query_transactions_by_events =
      query_txs_by_events Q event 1 1 >>= λ res. fetch_pages (pages_total res.page_total) 1 []

-- `GetSpendingTransactions`
unfoldable pub get_spending_transactions : Search → ℕ → Str → Time → Go (List ChainTx)
unfolding query_transactions_by_events
get_spending_transactions Q events_page_size from_address start_date =
    query_transactions_by_events Q (codes "coin_spent.spender='" ++ (from_address ++ codes "'"))
      events_page_size start_date
