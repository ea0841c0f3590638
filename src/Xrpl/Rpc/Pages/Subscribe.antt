-- ===== src/Xrpl/Rpc/Pages/Subscribe.antt =====
-- `SubscribeAccountTransactions` loses nothing, whatever the node and the context do.
use mathlib.Core.Option.{none-ne-some, some-injective}
use tx_xrpl_token_migrator.Base.{
  ◌≡◌, ◌≢◌, sym, ap, ◌∙◌, subst, ◌⊎◌, inl, inr, true, false, Option, none, some, List, [], ◌∷◌,
  ◌++◌, All, All-map, All-map₂, All-append_right, arith, Bool-cases, append-nil, Option-cases,
}
use tx_xrpl_token_migrator.Base.Int.{ℤ, pos}
use tx_xrpl_token_migrator.Base.Go.{ok, err, panics, Go-cases}
use tx_xrpl_token_migrator.Ripple.{Ripple, Account}
use tx_xrpl_token_migrator.Xrpl.Rpc.Types.{PageMarker, TxItem, Node}
use tx_xrpl_token_migrator.Xrpl.Rpc.Pages.{
  RpcClientConfig, Sent, is_end, larger_index, subscribe_pages, subscribe_account_transactions,
}
use tx_xrpl_token_migrator.Xrpl.Rpc.Pages.Lossless.{
  IsLedger, Ascending, WasSent, IsAbove, All-Ascending,
}
use tx_xrpl_token_migrator.Xrpl.Rpc.Pages.Keeps.{
  ScanKeeps, Serves, PageFits, page, page-PageFits, kept_after, keeps_after_page,
  Ascending-append_right, above-larger_index,
}

module _ (R : Ripple) (cfg : RpcClientConfig) (account : Account)
    (start_ledger end_ledger : ℤ) where
  abbrev scan : Option PageMarker → ℤ → List (Node R) → Option (Sent R (Unit {0}))
  scan = subscribe_pages R cfg account start_ledger end_ledger

  abbrev Rest : ℤ → List (Node R) → Type 0
  Rest max_latest nodes =
      (next : PageMarker) (later : List (TxItem R)) (s : Sent R (Unit {0}))
      → Ascending R start_ledger later
      → All (IsAbove R max_latest) later
      → Serves R cfg account start_ledger end_ledger (some next) later nodes
      → scan (some next) max_latest nodes ≡ some s
      → ScanKeeps R later s

  module _ (node : Node R) (nodes : List (Node R)) (marker : Option PageMarker) (max_latest : ℤ)
      (history : List (TxItem R)) (s : Sent R (Unit {0}))
      (above : All (IsAbove R max_latest) history)
      (h : scan marker max_latest (node ∷ nodes) ≡ some s) where
    abbrev here : Sent R PageMarker
    here = page R cfg account start_ledger end_ledger node marker

    after_failure :
        ((m : PageMarker) → here.result ≢ ok m)
        → All (λ x. WasSent R here.sent x ⊎ IsAbove R here.latest_index x) history
        → ScanKeeps R history s
    unfolding subscribe_pages
    after_failure failed kept = elim (Go-cases here.result) [
      | inl (m, e) ↦ absurd (failed m e)
      | inr (inl (e', e)) ↦
          subst (ScanKeeps R history) (some-injective _ _ (rw (e, subscribe_pages) at h)) (
            kept_after R cfg account start_ledger end_ledger here.sent history here.latest_index
              max_latest (err e') (λ u c. cc) kept above)
      | inr (inr e) ↦
          subst (ScanKeeps R history) (some-injective _ _ (rw (e, subscribe_pages) at h)) (
            kept_after R cfg account start_ledger end_ledger here.sent history here.latest_index
              max_latest panics (λ u c. cc) kept above)
    ]

    at_last :
        (next : PageMarker)
        → here.result ≡ ok next
        → is_end next ≡ true
        → All (WasSent R here.sent) history
        → ScanKeeps R history s
    unfolding subscribe_pages
    at_last next e fin all =
        subst (ScanKeeps R history) (some-injective _ _ (rw (e, fin, subscribe_pages) at h))
          (record { kept = All-map history (λ x w. inl w) all; complete = λ _. all })

    go_on :
        (next : PageMarker) (items later : List (TxItem R))
        → here.result ≡ ok next
        → is_end next ≡ false
        → history ≡ items ++ later
        → All (WasSent R here.sent) items
        → ((s' : Sent R (Unit {0}))
            → scan (some next) (larger_index here.latest_index max_latest) nodes ≡ some s'
            → ScanKeeps R later s')
        → ScanKeeps R history s
    unfolding subscribe_pages
    go_on next items later e more split all rest =
        elim (Option-cases (scan (some next) (larger_index here.latest_index max_latest) nodes)) [
          | inl stuck ↦ absurd (none-ne-some s (rw (e, more, stuck, subscribe_pages) at h))
          | inr (s', r) ↦
              subst (ScanKeeps R history)
                (some-injective _ _ (rw (e, more, r, subscribe_pages) at h))
                (rw split (
                  keeps_after_page R cfg account start_ledger end_ledger here.sent items later s'
                    all (rest s' r)))
        ]

  pages-ScanKeeps :
      (nodes : List (Node R)) (marker : Option PageMarker) (max_latest : ℤ)
      (history : List (TxItem R)) (s : Sent R (Unit {0}))
      → IsLedger start_ledger
      → Ascending R start_ledger history
      → All (IsAbove R max_latest) history
      → Serves R cfg account start_ledger end_ledger marker history nodes
      → scan marker max_latest nodes ≡ some s
      → ScanKeeps R history s
  unfolding subscribe_pages
  pages-ScanKeeps [] marker max_latest history s l asc above serves h = absurd (none-ne-some s h)
  pages-ScanKeeps (node ∷ nodes) marker max_latest history s l asc above serves h =
      by_page
        (page-PageFits R cfg account start_ledger end_ledger node nodes marker history l asc serves)
        (λ next later s'. pages-ScanKeeps nodes (some next) _ later s' l)
    where
      p : Sent R PageMarker
      p = page R cfg account start_ledger end_ledger node marker

      by_page :
          PageFits R cfg account start_ledger end_ledger history nodes p
          → Rest (larger_index p.latest_index max_latest) nodes
          → ScanKeeps R history s
      by_page (PageFits.fails failed kept) rest =
          after_failure node nodes marker max_latest history s above h failed kept
      by_page (PageFits.goes next items later e split all beyond at_end more) rest =
          elim (Bool-cases (is_end next)) [
            | inl fin ↦
                at_last node nodes marker max_latest history s above h next e fin (whole fin)
            | inr going ↦
                go_on node nodes marker max_latest history s above h next items later e going split
                  all
                  (λ s'.
                    rest next later s'
                      (Ascending-append_right R start_ledger items later
                        (subst (Ascending R start_ledger) split asc))
                      (All-map₂ later (λ x. above-larger_index R p.latest_index max_latest x) beyond
                        (All-append_right (IsAbove R max_latest) items later
                          (subst (All (IsAbove R max_latest)) split above)))
                      (more going))
          ]
        where
          whole : is_end next ≡ true → All (WasSent R p.sent) history
          whole fin =
              subst (All (WasSent R p.sent))
                (sym (split ∙ ap (λ t. items ++ t) (at_end fin) ∙ append-nil items)) all

  subscribe-ScanKeeps :
      (nodes : List (Node R)) (history : List (TxItem R)) (s : Sent R (Unit {0}))
      → IsLedger start_ledger
      → Ascending R start_ledger history
      → Serves R cfg account start_ledger end_ledger none history nodes
      → subscribe_account_transactions R cfg account start_ledger end_ledger nodes ≡ some s
      → ScanKeeps R history s
  unfolding subscribe_account_transactions
  subscribe-ScanKeeps nodes history s l asc serves h =
      pages-ScanKeeps nodes none (pos 0) history s l asc
        (All-Ascending R start_ledger (pos 0) history asc (omega arith)) serves h

  -- Whatever the node, the decoding and the context do, when the scan of an account ends, each
  -- transaction of its history from the start ledger on has been sent or lies above the index
  -- that the scan returns. The nodes page the history as documented, in the order of its ledgers.
  pub subscribe_lossless :
      (nodes : List (Node R)) (history : List (TxItem R)) (s : Sent R (Unit {0}))
      → IsLedger start_ledger
      → Ascending R start_ledger history
      → Serves R cfg account start_ledger end_ledger none history nodes
      → subscribe_account_transactions R cfg account start_ledger end_ledger nodes ≡ some s
      → All (λ x. WasSent R s.sent x ⊎ IsAbove R s.latest_index x) history
  subscribe_lossless nodes history s l asc serves h =
      (subscribe-ScanKeeps nodes history s l asc serves h).kept

  -- When the scan of an account ends without an error, each transaction of its history from the
  -- start ledger on has been sent. The nodes page the history as documented, in the order of its
  -- ledgers.
  pub subscribe_complete :
      (nodes : List (Node R)) (history : List (TxItem R)) (s : Sent R (Unit {0}))
      → IsLedger start_ledger
      → Ascending R start_ledger history
      → Serves R cfg account start_ledger end_ledger none history nodes
      → subscribe_account_transactions R cfg account start_ledger end_ledger nodes ≡ some s
      → s.result ≡ ok tt
      → All (WasSent R s.sent) history
  subscribe_complete nodes history s l asc serves h e =
      (subscribe-ScanKeeps nodes history s l asc serves h).complete e
