-- ===== src/Xrpl/Rpc/Pages/Keeps.antt =====
-- What one page of a scan leaves behind, given how a node pages the history of an account.
use tx_xrpl_token_migrator.Base.{
  ◌≡◌, ◌≢◌, ap, ◌∙◌, subst, ◌⊎◌, inl, inr, true, false, Option, some, List, [], ◌∷◌, ◌++◌, All,
  All-map, All-map₂, All-append, mem-append_left, mem-append_right, arith,
}
use tx_xrpl_token_migrator.Base.Int.{ℤ, pos, ◌≤ℤ◌}
use tx_xrpl_token_migrator.Base.Go.{Go, ok, Go-cases}
use tx_xrpl_token_migrator.Ripple.{Ripple, Account}
use tx_xrpl_token_migrator.Xrpl.Model.{Transaction}
use tx_xrpl_token_migrator.Xrpl.Rpc.Types.{PageMarker, AccountTxRes, TxItem, Node}
use tx_xrpl_token_migrator.Xrpl.Rpc.Call.{call_rpc}
use tx_xrpl_token_migrator.Xrpl.Rpc.Pages.{
  RpcClientConfig, Sent, from_index, account_tx_req, get_account_transactions, is_end, larger_index,
}
use tx_xrpl_token_migrator.Xrpl.Rpc.Pages.Lossless.{
  IsLedger, Ascending, WasSent, IsAbove, All-Ascending, Ascending-before, PageKeeps,
  send_items-PageKeeps,
}

module _ (R : Ripple) where
  pub Ascending-weaken :
      (low low' : ℤ) (xs : List (TxItem R)) → low' ≤ℤ low → Ascending R low xs → Ascending R low' xs
  Ascending-weaken low low' [] l h = tt
  Ascending-weaken low low' (x ∷ xs) l h = (omega arith, h.1, h.2)

  pub Ascending-append_right :
      (low : ℤ) (xs ys : List (TxItem R)) → Ascending R low (xs ++ ys) → Ascending R low ys
  Ascending-append_right low [] ys h = h
  Ascending-append_right low (x ∷ xs) ys h =
      Ascending-weaken x.ledger_index low ys h.0 (Ascending-append_right x.ledger_index xs ys h.2)

  -- What a scan of a history leaves behind.
  pub record ScanKeeps (history : List (TxItem R)) (s : Sent R (Unit {0})) : Type 0 where
    pub kept : All (λ x. WasSent R s.sent x ⊎ IsAbove R s.latest_index x) history
    pub complete : s.result ≡ ok tt → All (WasSent R s.sent) history

  pub above-larger_index :
      (a b : ℤ) (x : TxItem R) → IsAbove R a x → IsAbove R b x → IsAbove R (larger_index a b) x
  above-larger_index a b x h k = ground arith

  module _ (cfg : RpcClientConfig) (account : Account) (start_ledger end_ledger : ℤ) where
    -- The node's answer to the request of a page.
    abbrev pub answer : Node R → Option PageMarker → Go (AccountTxRes R)
    answer node marker =
        call_rpc R node node.decode_account_tx
          (account_tx_req R cfg account start_ledger end_ledger marker)

    -- The documented paging of `account_tx`: each answer holds the next items of the account's
    -- history, and the zero marker comes with the last of them.
    abbrev pub Serves : Option PageMarker → List (TxItem R) → List (Node R) → Type 0
    Serves marker history [] = Unit
    Serves marker history (node ∷ nodes) =
        (res : AccountTxRes R)
        → answer node marker ≡ ok res
        → (later : List (TxItem R)) × (history ≡ res.transactions ++ later)
          × (is_end res.marker ≡ true → later ≡ [])
          × (is_end res.marker ≡ false → Serves (some res.marker) later nodes)

    pub from_index-IsLedger : (i : ℤ) → IsLedger i → from_index R i ≡ i
    unfolding from_index
    from_index-IsLedger i h = ground arith

    -- How a page fits a history: it fails and keeps, or it sends the next items.
    pub data PageFits (history : List (TxItem R)) (nodes : List (Node R)) (page : Sent R PageMarker)
        : Type 0 where
      fails :
          ((m : PageMarker) → page.result ≢ ok m)
          → All (λ x. WasSent R page.sent x ⊎ IsAbove R page.latest_index x) history
          → PageFits history nodes page
      goes :
          (next : PageMarker) (items later : List (TxItem R))
          → page.result ≡ ok next
          → history ≡ items ++ later
          → All (WasSent R page.sent) items
          → All (IsAbove R page.latest_index) later
          → (is_end next ≡ true → later ≡ [])
          → (is_end next ≡ false → Serves (some next) later nodes)
          → PageFits history nodes page

    abbrev pub page : Node R → Option PageMarker → Sent R PageMarker
    page node marker = get_account_transactions R cfg account start_ledger end_ledger node marker

    fits_of_keeps :
        (nodes : List (Node R)) (next : PageMarker) (items later history : List (TxItem R))
        (s : Sent R PageMarker)
        → history ≡ items ++ later
        → (is_end next ≡ true → later ≡ [])
        → (is_end next ≡ false → Serves (some next) later nodes)
        → PageKeeps R next items later s
        → PageFits history nodes s
    fits_of_keeps nodes next items later history s split at_end go_on k = elim (Go-cases s.result) [
      | inl (m, e) ↦
          let (all, same) = k.complete m e in
          goes next items later (e ∙ ap ok same) split all k.beyond at_end go_on
      | inr (inl (e', e)) ↦ fails (λ m c. cc) all_kept
      | inr (inr e) ↦ fails (λ m c. cc) all_kept
    ]
      where
        all_kept : All (λ x. WasSent R s.sent x ⊎ IsAbove R s.latest_index x) history
        all_kept = rw split (
            All-append (λ x. WasSent R s.sent x ⊎ IsAbove R s.latest_index x) items later k.kept
              (All-map later (λ x a. inr a) k.beyond))

    pub page-PageFits :
        (node : Node R) (nodes : List (Node R)) (marker : Option PageMarker)
        (history : List (TxItem R))
        → IsLedger start_ledger
        → Ascending R start_ledger history
        → Serves marker history (node ∷ nodes)
        → PageFits history nodes (page node marker)
    unfolding get_account_transactions
    page-PageFits node nodes marker history l asc serves = elim (Go-cases (answer node marker)) [
      | inl (res, e) ↦
          let (later, split, at_end, go_on) = serves res e in
          rw (e, get_account_transactions, from_index-IsLedger start_ledger l)
            (fits_of_keeps nodes res.marker res.transactions later history _ split at_end go_on (
              send_items-PageKeeps R node.done_cause res.marker node.done_after start_ledger
                res.transactions later l (subst (Ascending R start_ledger) split asc)))
      | inr (inl (e', e)) ↦
          rw (e, get_account_transactions, from_index-IsLedger start_ledger l)
            (fails (λ m c. cc)
              (All-map history (λ x a. inr a) (Ascending-before R start_ledger history l asc)))
      | inr (inr e) ↦
          rw (e, get_account_transactions)
            (fails (λ m c. cc)
              (All-map history (λ x a. inr a)
                (All-Ascending R start_ledger (pos 0) history asc (omega arith))))
    ]

    pub kept_after :
        (trace : List (Transaction R)) (history : List (TxItem R)) (latest max_latest : ℤ)
        (r : Go (Unit {0}))
        → ((u : Unit {0}) → r ≢ ok u)
        → All (λ x. WasSent R trace x ⊎ IsAbove R latest x) history
        → All (IsAbove R max_latest) history
        → ScanKeeps history
            (record { sent = trace; latest_index = larger_index latest max_latest; result = r })
    kept_after trace history latest max_latest r failed kept above = record {
      kept = All-map₂ history raise kept above;
      complete = λ e. absurd (failed tt e);
    }
      where
        raise :
            (x : TxItem R)
            → WasSent R trace x ⊎ IsAbove R latest x
            → IsAbove R max_latest x
            → WasSent R trace x ⊎ IsAbove R (larger_index latest max_latest) x
        raise x (inl w) a = inl w
        raise x (inr b) a = inr (above-larger_index latest max_latest x b a)

    -- A page that has sent its items stands before what the rest of the scan leaves behind.
    pub keeps_after_page :
        (sent : List (Transaction R)) (items later : List (TxItem R)) (s : Sent R (Unit {0}))
        → All (WasSent R sent) items
        → ScanKeeps later s
        → ScanKeeps (items ++ later) (record s { sent = sent ++ s.sent })
    keeps_after_page sent items later s all k = record {
      kept =
          All-append _ items later (All-map items (λ x w. inl (before x w)) all)
            (All-map later either k.kept);
      complete = λ e.
          All-append _ items later (All-map items before all) (All-map later behind (k.complete e));
    }
      where
        before : (x : TxItem R) → WasSent R sent x → WasSent R (sent ++ s.sent) x
        before x (txn, e, m) = (txn, e, mem-append_left s.sent m)

        behind : (x : TxItem R) → WasSent R s.sent x → WasSent R (sent ++ s.sent) x
        behind x (txn, e, m) = (txn, e, mem-append_right sent m)

        either :
            (x : TxItem R)
            → WasSent R s.sent x ⊎ IsAbove R s.latest_index x
            → WasSent R (sent ++ s.sent) x ⊎ IsAbove R s.latest_index x
        either x (inl w) = inl (behind x w)
        either x (inr a) = inr a
