-- ===== src/Xrpl/Rpc/Pages/Bound.antt =====
-- The index that a scan returns: not negative, and below every bound of the start ledger and of
-- the ledgers of the history.
use mathlib.Core.Option.{none-ne-some, some-injective}
use tx_xrpl_token_migrator.Base.{
  ℕ, ◌≡◌, sym, ap, ◌⊎◌, subst, inl, inr, false, Option, none, some, List, [], ◌∷◌, ◌++◌, All,
  All-append_left, All-append_right, arith, Bool-cases, Option-cases,
}
use tx_xrpl_token_migrator.Base.Int.{ℤ, pos, ◌-ℤ◌, ◌≤ℤ◌, ◌<ℤ◌, i64, int_laws}
use tx_xrpl_token_migrator.Base.Go.{ok, Go-cases, Cause}
use tx_xrpl_token_migrator.Ripple.{Ripple, Account}
use tx_xrpl_token_migrator.Xrpl.Rpc.Types.{PageMarker, TxItem, Node}
use tx_xrpl_token_migrator.Xrpl.Rpc.Pages.{
  RpcClientConfig, Sent, from_index, is_end, countdown, larger_index, subscribe_pages,
  get_account_transactions, subscribe_account_transactions, send_items,
}
use tx_xrpl_token_migrator.Xrpl.Rpc.Pages.Lossless.{IsLedger, Ascending, i64-before}
use tx_xrpl_token_migrator.Xrpl.Rpc.Pages.Keeps.{
  Serves, answer, page, Ascending-append_right, from_index-IsLedger,
}
use tx_xrpl_token_migrator.Xrpl.Rpc.Pages.Returns.{answer_of_ok}

module _ (R : Ripple) (top : ℤ) where
  -- Every item of a list is at the top at most.
  abbrev pub IsUpTo : TxItem R → Type 0
  IsUpTo x = x.ledger_index ≤ℤ top

  before_top : (i : ℤ) → IsLedger i → i ≤ℤ top → i64 (i -ℤ pos 1) <ℤ top
  before_top i l h = rw (i64-before i l) (omega int_laws)

  send_items-lt :
      (cause : Cause) (marker : PageMarker) (left : Option ℕ) (latest : ℤ)
      (items later : List (TxItem R))
      → IsLedger latest
      → latest ≤ℤ top
      → Ascending R latest (items ++ later)
      → All IsUpTo items
      → (send_items R cause marker left latest items).latest_index <ℤ top
  unfolding send_items
  send_items-lt cause marker left latest [] later l up asc all = before_top latest l up
  send_items-lt cause marker left latest (x ∷ items) later l up asc all = ground (
    arith,
    before_top x.ledger_index (omega arith) all.0,
    send_items-lt cause marker (countdown left) x.ledger_index items later (omega arith) all.0 asc.2
        all.1,
    send_items-lt cause marker left x.ledger_index items later (omega arith) all.0 asc.2 all.1,
  )

  module _ (cfg : RpcClientConfig) (account : Account) (start_ledger end_ledger : ℤ) where
    abbrev Served : Option PageMarker → List (TxItem R) → List (Node R) → Type 0
    Served = Serves R cfg account start_ledger end_ledger

    page-lt :
        (node : Node R) (nodes : List (Node R)) (marker : Option PageMarker)
        (history : List (TxItem R))
        → IsLedger start_ledger
        → start_ledger ≤ℤ top
        → Ascending R start_ledger history
        → All IsUpTo history
        → Served marker history (node ∷ nodes)
        → (page R cfg account start_ledger end_ledger node marker).latest_index <ℤ top
    unfolding get_account_transactions
    page-lt node nodes marker history l up asc all serves =
        elim (Go-cases (answer R cfg account start_ledger end_ledger node marker)) [
          | inl (res, e) ↦
              let (later, split, at_end, more) = serves res e in
              rw (e, get_account_transactions, start)
                (send_items-lt node.done_cause res.marker node.done_after start_ledger
                  res.transactions later l up (subst (Ascending R start_ledger) split asc)
                  (All-append_left IsUpTo res.transactions later (subst (All IsUpTo) split all)))
          | inr (inl (e', e)) ↦
              rw (e, get_account_transactions, start) (before_top start_ledger l up)
          | inr (inr e) ↦ rw (e, get_account_transactions) (omega arith)
        ]
      where
        start : from_index R start_ledger ≡ start_ledger
        start = from_index-IsLedger R cfg account start_ledger end_ledger start_ledger l

    larger_index-lt : (a b : ℤ) → a <ℤ top → b <ℤ top → larger_index a b <ℤ top
    larger_index-lt a b h k = ground arith

    -- A round ends the scan, at the larger of its index and the indexes before it, or the scan
    -- goes on from its marker.
    abbrev Round : Node R → List (Node R) → Option PageMarker → ℤ → Sent R (Unit {0}) → Type 0
    Round node nodes marker max_latest s =
        (s.latest_index
          ≡ larger_index (page R cfg account start_ledger end_ledger node marker).latest_index
              max_latest)
        ⊎ ((next : PageMarker) × (s' : Sent R (Unit {0})) × ((page R cfg account start_ledger
                end_ledger node marker).result
              ≡ ok next)
            × (is_end next ≡ false)
            × (subscribe_pages R cfg account start_ledger end_ledger (some next)
                  (larger_index
                    (page R cfg account start_ledger end_ledger node marker).latest_index
                    max_latest)
                  nodes
                ≡ some s')
            × (s.latest_index ≡ s'.latest_index))

    Round-cases :
        (node : Node R) (nodes : List (Node R)) (marker : Option PageMarker) (max_latest : ℤ)
        (s : Sent R (Unit {0}))
        → subscribe_pages R cfg account start_ledger end_ledger marker max_latest (node ∷ nodes)
          ≡ some s
        → Round node nodes marker max_latest s
    unfolding subscribe_pages
    Round-cases node nodes marker max_latest s h = elim (Go-cases p.result) [
      | inl (m, e) ↦ elim (Bool-cases (is_end m)) [
        | inl fin ↦ inl (index (rw (e, fin, subscribe_pages) at h))
        | inr going ↦
            elim (Option-cases (
              subscribe_pages R cfg account start_ledger end_ledger (some m)
                (larger_index p.latest_index max_latest) nodes)) [
                  | inl stuck ↦ absurd (none-ne-some s (rw (e, going, stuck, subscribe_pages) at h))
                  | inr (s', r) ↦
                      inr (m, s', e, going, r, index (rw (e, going, r, subscribe_pages) at h))
                ]
      ]
      | inr (inl (e', e)) ↦ inl (index (rw (e, subscribe_pages) at h))
      | inr (inr e) ↦ inl (index (rw (e, subscribe_pages) at h))
    ]
      where
        p : Sent R PageMarker
        p = page R cfg account start_ledger end_ledger node marker

        index : {t : Sent R (Unit {0})} → some t ≡ some s → s.latest_index ≡ t.latest_index
        index e = sym (ap (λ (r : Sent R (Unit {0})). r.latest_index) (some-injective _ _ e))

    pages-lt :
        (nodes : List (Node R)) (marker : Option PageMarker) (max_latest : ℤ)
        (history : List (TxItem R)) (s : Sent R (Unit {0}))
        → IsLedger start_ledger
        → start_ledger ≤ℤ top
        → max_latest <ℤ top
        → Ascending R start_ledger history
        → All IsUpTo history
        → Served marker history nodes
        → subscribe_pages R cfg account start_ledger end_ledger marker max_latest nodes ≡ some s
        → s.latest_index <ℤ top
    pages-lt [] marker max_latest history s l up low asc all serves h =
        absurd (none-ne-some s (unfold subscribe_pages in h))
    pages-lt (node ∷ nodes) marker max_latest history s l up low asc all serves h =
        elim (Round-cases node nodes marker max_latest s h) [
          | inl e ↦ rw e lower
          | inr (next, s', ok_page, going, r, same) ↦
              let (res, a, named) =
                answer_of_ok R cfg account start_ledger end_ledger node nodes marker max_latest next
                  ok_page in
              let (later, split, at_end, more) = serves res a in
              rw same (
                pages-lt nodes (some next) _ later s' l up lower
                  (Ascending-append_right R start_ledger res.transactions later
                    (subst (Ascending R start_ledger) split asc))
                  (All-append_right IsUpTo res.transactions later (subst (All IsUpTo) split all))
                  (subst (λ k. Served (some k) later nodes) named (more (rw named going))) r)
        ]
      where
        lower :
            larger_index
              (page R cfg account start_ledger end_ledger node marker).latest_index
              max_latest
            <ℤ top
        lower = larger_index-lt _ _ (page-lt node nodes marker history l up asc all serves) low

    pages-ge :
        (nodes : List (Node R)) (marker : Option PageMarker) (max_latest : ℤ)
        (s : Sent R (Unit {0}))
        → subscribe_pages R cfg account start_ledger end_ledger marker max_latest nodes ≡ some s
        → max_latest ≤ℤ s.latest_index
    pages-ge [] marker max_latest s h = absurd (none-ne-some s (unfold subscribe_pages in h))
    pages-ge (node ∷ nodes) marker max_latest s h =
        elim (Round-cases node nodes marker max_latest s h) [
          | inl e ↦ rw e (larger_index-ge _ max_latest)
          | inr (next, s', ok_page, going, r, same) ↦
              rw same
                (omega (arith, pages-ge nodes (some next) _ s' r, larger_index-ge _ max_latest))
        ]
      where
        larger_index-ge : (a b : ℤ) → b ≤ℤ larger_index a b
        larger_index-ge a b = ground arith

    -- When the scan ends, its index is not negative, and lies below the top: the start ledger and
    -- all ledgers of the history are at the top at most.
    pub subscribe_bounds :
        (nodes : List (Node R)) (history : List (TxItem R)) (s : Sent R (Unit {0}))
        → IsLedger start_ledger
        → start_ledger ≤ℤ top
        → Ascending R start_ledger history
        → All IsUpTo history
        → Serves R cfg account start_ledger end_ledger none history nodes
        → subscribe_account_transactions R cfg account start_ledger end_ledger nodes ≡ some s
        → (pos 0 ≤ℤ s.latest_index) × (s.latest_index <ℤ top)
    unfolding subscribe_account_transactions
    subscribe_bounds nodes history s l up asc all serves h = (
      pages-ge nodes none (pos 0) s h,
      pages-lt nodes none (pos 0) history s l up (omega arith) asc all serves h,
    )
