-- ===== src/Tx/Chain/Fill.antt =====
-- What `queryTxsByEvents` answers on a node that serves the transactions and their blocks.
use tx_xrpl_token_migrator.Base.{ℕ, ◌≡◌, refl, true, some, List, [], ◌∷◌, map, All}
use tx_xrpl_token_migrator.Base.Str.{Str}
use tx_xrpl_token_migrator.Base.Go.{ok}
use tx_xrpl_token_migrator.Xrpl.Model.{Time}
use tx_xrpl_token_migrator.Tx.Chain.{
  ChainTx, ResultTx, ResultTxSearch, Decoded, Search, mk_tx_result, format_tx_results,
  fill_timestamps, query_txs_by_events,
}

module _ (Q : Search) (time : ℕ → Time) where
  -- The transaction is decoded, and its block has this time, which is read back as printed.
  pub record IsServed (res_tx : ResultTx) : Type 0 where
    pub decoded : Q.decode_tx res_tx.tx ≡ Decoded.into_any
    pub block : Q.block_time res_tx.height ≡ ok (time res_tx.height)
    pub printed : Q.parse_timestamp (Q.time_string (time res_tx.height)) ≡ some (time res_tx.height)

  abbrev formatted : ResultTx → ChainTx
  formatted res_tx = record {
    tx_hash = res_tx.tx_hash;
    height = res_tx.height;
    timestamp = [];
    code = res_tx.code;
  }

  -- A transaction with the time of its block.
  abbrev pub timed : ResultTx → ChainTx
  timed res_tx = record {
    tx_hash = res_tx.tx_hash;
    height = res_tx.height;
    timestamp = Q.time_string (time res_tx.height);
    code = res_tx.code;
  }

  format_lem :
      (res_txs : List ResultTx)
      → All IsServed res_txs
      → format_tx_results Q res_txs ≡ ok (map formatted res_txs)
  unfolding format_tx_results
  format_lem [] h = refl
  format_lem (r ∷ res_txs) (h, hs) =
      rw (h.decoded, format_lem res_txs hs, format_tx_results, mk_tx_result) refl

  fill_lem :
      (res_txs : List ResultTx)
      → All IsServed res_txs
      → fill_timestamps Q (map formatted res_txs) ≡ ok (map timed res_txs)
  unfolding fill_timestamps
  fill_lem [] h = refl
  fill_lem (r ∷ res_txs) (h, hs) = rw (h.block, fill_lem res_txs hs, fill_timestamps) refl

  pub query-timed :
      (event : Str) (page limit : ℕ) (res : ResultTxSearch)
      → Q.has_node ≡ true
      → Q.tx_search event page limit ≡ ok res
      → All IsServed res.txs
      → query_txs_by_events Q event page limit
        ≡ ok (record { page_total = Q.page_count res.total_count limit; txs = map timed res.txs })
  unfolding query_txs_by_events
  query-timed event page limit res n e h =
      rw (n, e, query_txs_by_events) (rw (format_lem res.txs h, fill_lem res.txs h) refl)
