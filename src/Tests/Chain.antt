-- ===== src/Tests/Chain.antt =====
-- The transactions of an address on a sample node.
use tx_xrpl_token_migrator.Base.{
  ℕ, ◌+◌, ◌-◌, ◌*◌, ◌≡◌, refl, ap, true, some, List, [], ◌∷◌, map, filter, arith, take, drop,
}
use tx_xrpl_token_migrator.Base.Int.{pos}
use tx_xrpl_token_migrator.Base.Str.{Str, codes}
use tx_xrpl_token_migrator.Base.Go.{ok}
use tx_xrpl_token_migrator.Xrpl.Model.{Time}
use tx_xrpl_token_migrator.Tx.Chain.{
  query_txs_by_events, ResultTx, Decoded, Search, query_transactions_by_events,
  get_spending_transactions,
}
use tx_xrpl_token_migrator.Tx.Chain.Fill.{IsServed, timed}
use tx_xrpl_token_migrator.Tx.Chain.Page.{since, is_success}
use tx_xrpl_token_migrator.Tx.Chain.Since.{time_at, query_since}

abbrev result_tx : ℕ → ℕ → ResultTx
result_tx height code = record { tx = []; tx_hash = codes "T"; height = height; code = code }

abbrev raw_txs : List ResultTx
raw_txs = result_tx 9 0 ∷ result_tx 8 1 ∷ result_tx 7 0 ∷ result_tx 3 0 ∷ result_tx 2 0 ∷ []

-- A timestamp is one number, and the time of a block is its height.
abbrev read_time : Str → Time
read_time [] = pos 0
read_time (n ∷ s) = pos n

abbrev print_time : Time → Str
print_time (pos n) = n ∷ []
print_time t = []

abbrev block_time : ℕ → Time
block_time height = pos height

abbrev search : Search
search = record {
  has_node = true;
  tx_search = λ event page limit.
      ok (record { txs = take limit (drop ((page - 1) * limit) raw_txs); total_count = 5 });
  block_time = λ height. ok (block_time height);
  decode_tx = λ tx. Decoded.into_any;
  page_count = λ total limit. total;
  time_string = print_time;
  parse_timestamp = λ s. some (read_time s);
}

same_page : (page : ℕ) → page + 1 - 1 ≡ page
same_page page = omega arith

search_pages :
    (limit page : ℕ)
    → search.tx_search (codes "e") (page + 1) limit
      ≡ ok (record { txs = take limit (drop (page * limit) raw_txs); total_count = 5 })
search_pages limit page =
    ap (λ p. ok (record { txs = take limit (drop (p * limit) raw_txs); total_count = 5 }))
      (same_page page)

served : (height code : ℕ) → IsServed search block_time (result_tx height code)
served height code = record { decoded = refl; block = refl; printed = refl }

query_since_example :
    query_transactions_by_events search (codes "e") 2 (pos 5)
    ≡ ok (
        filter is_success
          (since (time_at block_time) (pos 5) (map (timed search block_time) raw_txs)))
query_since_example =
    query_since search (codes "e") 2 (pos 5) block_time raw_txs
      (served 9 0, (served 8 1, (served 7 0, (served 3 0, (served 2 0, tt))))) refl
      (λ page there. search_pages 1 page) (λ page there. search_pages 2 page) refl (omega arith)

query_kept :
    get_spending_transactions search 2 (codes "a") (pos 5)
    ≡ ok (timed search block_time (result_tx 9 0) ∷ timed search block_time (result_tx 7 0) ∷ [])
unfolding get_spending_transactions query_txs_by_events
query_kept = refl
