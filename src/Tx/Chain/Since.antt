-- ===== src/Tx/Chain/Since.antt =====
-- Which transactions `GetSpendingTransactions` returns.
use native.Mathlib.Nat.{mod-lt, div-add-mod'}
use tx_xrpl_token_migrator.Base.{
  ==_iff, filter-append, nil_of_length, drop-drop, length-drop, ℕ, zero, suc, ◌+◌, ◌*◌, ◌%◌, ◌==◌,
  ◌<◌, ◌≤◌, ◌≡◌, refl, sym, ap, ◌∙◌, ◌≢◌, ◌⊎◌, inl, inr, true, false, List, [], ◌++◌, map,
  append_assoc, append-nil, arith, length, take, drop, filter, Bool-cases, All, take-append-drop,
  All-take, All-drop, map-take, map-drop, length-map, All-map_of, All-map,
}
use tx_xrpl_token_migrator.Base.Str.{Str}
use tx_xrpl_token_migrator.Base.Go.{ok}
use tx_xrpl_token_migrator.Xrpl.Model.{Time}
use tx_xrpl_token_migrator.Tx.Chain.{
  ChainTx, ResultTx, Search, fetch_pages, pages_total, query_txs_by_events,
  query_transactions_by_events,
}
use tx_xrpl_token_migrator.Tx.Chain.Fill.{IsServed, timed, query-timed}
use tx_xrpl_token_migrator.Tx.Chain.Page.{
  since, is_success, reaches, Reads, scan_page-since, since-stops, since-goes, since-whole,
}

-- The time of a transaction is that of the block at its height.
abbrev pub time_at : (ℕ → Time) → ChainTx → Time
time_at time tx = time tx.height

module _ (Q : Search) (event : Str) (events_page_size : ℕ) (start_date : Time) (time : ℕ → Time)
    (raw : List ResultTx) where
  -- The transactions of the node, with the times of their blocks.
  abbrev pub all_timed : List ChainTx
  all_timed = map (timed Q time) raw

  -- The node answers a page, of those that there are, with its part of the transactions, and with
  -- their count.
  abbrev pub IsPaged : ℕ → Type 0
  IsPaged limit =
      (page : ℕ)
      → (page ≡ 0) ⊎ (page * limit < length raw)
      → Q.tx_search event (page + 1) limit
        ≡ ok (record { txs = take limit (drop (page * limit) raw); total_count = length raw })

  abbrev part_at : ℕ → List ChainTx
  part_at offset = take events_page_size (drop offset all_timed)

  -- So many pages from an offset on.
  abbrev pages : ℕ → ℕ → List ChainTx
  pages zero offset = []
  pages (suc left) offset = part_at offset ++ pages left (offset + events_page_size)

  abbrev kept : List ChainTx → List ChainTx
  kept txs = filter is_success (since (time_at time) start_date txs)

  next_offset :
      (page : ℕ) → (page + 1) * events_page_size ≡ page * events_page_size + events_page_size
  next_offset page = omega arith

  joined :
      (txs part : List ChainTx) (left page : ℕ)
      → reaches (time_at time) start_date part ≡ false
      → (txs ++ kept part) ++ kept (pages left ((page + 1) * events_page_size))
        ≡ txs ++ kept (part ++ pages left (page * events_page_size + events_page_size))
  joined txs part left page go =
      append_assoc txs (kept part) _
      ∙ ap (λ r. txs ++ r)
          (ap (λ r. filter is_success r ++ kept (pages left ((page + 1) * events_page_size)))
              (since-whole start_date (time_at time) part go)
            ∙ ap (λ o. filter is_success part ++ kept (pages left o)) (next_offset page)
            ∙ sym (
                filter-append is_success part (
                  since (time_at time) start_date
                    (pages left (page * events_page_size + events_page_size))))
            ∙ ap (filter is_success) (
                sym (
                  since-goes start_date (time_at time) part
                    (pages left (page * events_page_size + events_page_size)) go)))

  pages-drop :
      (left offset : ℕ)
      → length all_timed ≤ offset + left * events_page_size
      → pages left offset ≡ drop offset all_timed
  pages-drop zero offset h =
      sym (nil_of_length (drop offset all_timed) (omega (arith, length-drop offset all_timed)))
  pages-drop (suc left) offset h =
      ap (λ t. part_at offset ++ t)
        (pages-drop left (offset + events_page_size) (omega arith)
          ∙ sym (drop-drop offset events_page_size all_timed))
      ∙ take-append-drop events_page_size (drop offset all_timed)

  enough_pages :
      (n : ℕ)
      → 0 < events_page_size
      → n ≤ 0 + pages_total Q event events_page_size start_date n * events_page_size
  unfolding pages_total
  enough_pages n h = elim (Bool-cases (n % events_page_size == 0)) [
    | inl y ↦
        rw (y, pages_total)
          (omega (arith, div-add-mod' n events_page_size, (==_iff (n % events_page_size) 0).0 y))
    | inr m ↦ rw (m, pages_total) (omega (arith, div-add-mod' n events_page_size, mod-lt n h))
  ]

  -- The last page begins before the end.
  pages_bound :
      (n : ℕ)
      → 0 < events_page_size
      → pages_total Q event events_page_size start_date n * events_page_size < n + events_page_size
  unfolding pages_total
  pages_bound n h = elim (Bool-cases (n % events_page_size == 0)) [
    | inl y ↦ rw (y, pages_total) (omega (arith, div-add-mod' n events_page_size))
    | inr m ↦
        let nonzero : n % events_page_size ≢ 0 = ground (arith, m) in
        rw (m, pages_total) (omega (arith, div-add-mod' n events_page_size, nonzero))
  ]

  module _ (served : All (IsServed Q time) raw) (has_node : Q.has_node ≡ true) where
    page_answer :
        (page limit : ℕ)
        → IsPaged limit
        → (page ≡ 0) ⊎ (page * limit < length raw)
        → query_txs_by_events Q event (page + 1) limit
          ≡ ok (record {
            page_total = Q.page_count (length raw) limit;
            txs = take limit (drop (page * limit) all_timed);
          })
    page_answer page limit paged there =
        query-timed Q time event (page + 1) limit _ has_node (paged page there)
          (All-take _ limit _ (All-drop _ (page * limit) raw served))
        ∙ ap (λ l. ok (record { page_total = Q.page_count (length raw) limit; txs = l }))
            (map-take (timed Q time) limit (drop (page * limit) raw)
              ∙ ap (take limit) (map-drop (timed Q time) (page * limit) raw))

    part-Reads :
        (offset : ℕ)
        → All (Reads Q event events_page_size start_date (time_at time)) (part_at offset)
    part-Reads offset = All-take _ events_page_size _ (
        All-drop _ offset all_timed
          (All-map_of (timed Q time) _ raw (All-map raw (λ r s. s.printed) served)))

    fetch_pages-since :
        (left page : ℕ) (txs : List ChainTx)
        → IsPaged events_page_size
        → (page + left) * events_page_size < length raw + events_page_size
        → fetch_pages Q event events_page_size start_date left (page + 1) txs
          ≡ ok (txs ++ kept (pages left (page * events_page_size)))
    unfolding fetch_pages
    fetch_pages-since zero page txs paged b = ap ok (sym (append-nil txs))
    fetch_pages-since (suc left) page txs paged b =
        let part = part_at (page * events_page_size) in
        let answer = page_answer page events_page_size paged (inr (omega arith)) in
        let scanned =
          scan_page-since Q event events_page_size start_date (time_at time) part txs
            (part-Reads (page * events_page_size)) in
        elim (Bool-cases (reaches (time_at time) start_date part)) [
          | inl stop ↦
              rw (answer, scanned, stop, fetch_pages)
                (ap (λ r. ok (txs ++ filter is_success r))
                  (sym (
                    since-stops start_date (time_at time) part
                      (pages left (page * events_page_size + events_page_size)) stop)))
          | inr go ↦
              rw (answer, scanned, go, fetch_pages)
                (fetch_pages-since left (page + 1) (txs ++ kept part) paged (omega arith)
                  ∙ ap ok (joined txs part left page go))
        ]

    no_offset : 0 * events_page_size ≡ 0
    no_offset = omega arith

    -- On a node that serves the transactions and their blocks, with their count, and pages them as
    -- documented, the transactions of an event are returned in order: the successful ones before
    -- the first one whose block is earlier than the start date, or all successful ones where none
    -- is.
    pub query_since :
        IsPaged 1
        → IsPaged events_page_size
        → Q.page_count (length raw) 1 ≡ length raw
        → 0 < events_page_size
        → query_transactions_by_events Q event events_page_size start_date
          ≡ ok (filter is_success (since (time_at time) start_date all_timed))
    unfolding query_transactions_by_events
    query_since one paged total h =
        rw (page_answer 0 1 one (inl refl), total, query_transactions_by_events)
          (fetch_pages-since (pages_total Q event events_page_size start_date (length raw)) 0 []
              paged (omega (arith, pages_bound (length raw) h))
            ∙ ap
                (λ o.
                  ok
                    (kept (pages (pages_total Q event events_page_size start_date (length raw)) o)))
                no_offset
            ∙ ap (λ r. ok (kept r))
                (pages-drop (pages_total Q event events_page_size start_date (length raw)) 0
                  enough))
      where
        enough :
            length all_timed
            ≤ 0 + pages_total Q event events_page_size start_date (length raw) * events_page_size
        enough = omega (arith, length-map (timed Q time) raw, enough_pages (length raw) h)
