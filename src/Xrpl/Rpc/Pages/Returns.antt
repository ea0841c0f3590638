-- ===== src/Xrpl/Rpc/Pages/Returns.antt =====
-- The scan of an account ends: with more nodes, one for each page, than there are items in the
-- history, it does not run out of them.
use tx_xrpl_token_migrator.Base.{
  ℕ, suc, ◌<◌, ◌≡◌, ap, subst, inl, inr, false, Option, some, List, [], ◌∷◌, ◌++◌, All, arith,
  Bool-cases, length, length-append,
}
use tx_xrpl_token_migrator.Base.Int.{ℤ}
use tx_xrpl_token_migrator.Base.Go.{Go, ok, err, panics, Go-cases, Cause, ok_injective, Error}
use tx_xrpl_token_migrator.Ripple.{Ripple, Account}
use tx_xrpl_token_migrator.Xrpl.Rpc.Types.{PageMarker, TxItem, AccountTxRes, Node}
use tx_xrpl_token_migrator.Xrpl.Rpc.Pages.{
  RpcClientConfig, Sent, is_end, countdown, larger_index, subscribe_pages, get_account_transactions,
  send_items,
}
use tx_xrpl_token_migrator.Xrpl.Rpc.Pages.Keeps.{Serves, answer, page}

module _ (R : Ripple) where
  send_items-marker :
      (cause : Cause) (marker m : PageMarker) (left : Option ℕ) (latest : ℤ)
      (items : List (TxItem R))
      → (send_items R cause marker left latest items).result ≡ ok m
      → marker ≡ m
  unfolding send_items
  send_items-marker cause marker m left latest [] h = ok_injective h
  send_items-marker cause marker m left latest (x ∷ items) h = ground (
    arith,
    send_items-marker cause marker m (countdown left) x.ledger_index items,
    send_items-marker cause marker m left x.ledger_index items,
  )

module _ (R : Ripple) (cfg : RpcClientConfig) (account : Account)
    (start_ledger end_ledger : ℤ) where
  -- A marker that is not the last comes with a page that is not empty.
  abbrev pub Advances : List (Node R) → Type 0
  Advances nodes =
      All
        (λ node.
          (marker : Option PageMarker) (res : AccountTxRes R)
          → answer R cfg account start_ledger end_ledger node marker ≡ ok res
          → is_end res.marker ≡ false
          → 0 < length res.transactions)
        nodes

  abbrev pub Ends : Option PageMarker → ℤ → List (Node R) → Type 0
  Ends marker max_latest nodes =
      (s : Sent R (Unit {0})) × (subscribe_pages R cfg account start_ledger end_ledger marker
          max_latest nodes
        ≡ some s)

  module _ (node : Node R) (nodes : List (Node R)) (marker : Option PageMarker)
      (max_latest : ℤ) where
    abbrev here : Sent R PageMarker
    here = page R cfg account start_ledger end_ledger node marker

    final : Go (Unit {0}) → Sent R (Unit {0})
    final r = record {
      sent = here.sent;
      latest_index = larger_index here.latest_index max_latest;
      result = r;
    }

    -- Only a page that names a next one goes on.
    Ends-or_goes :
        ((m : PageMarker)
          → here.result ≡ ok m
          → is_end m ≡ false
          → Ends (some m) (larger_index here.latest_index max_latest) nodes)
        → Ends marker max_latest (node ∷ nodes)
    unfolding subscribe_pages final
    Ends-or_goes rest = elim (Go-cases here.result) [
      | inl (m, e) ↦ elim (Bool-cases (is_end m)) [
        | inl fin ↦ (final (ok tt), rw (e, fin, subscribe_pages))
        | inr going ↦
            let (s, h) = rest m e going in
            (record s { sent = here.sent ++ s.sent }, rw (e, going, h, subscribe_pages))
      ]
      | inr (inl (e', e)) ↦ (final (err e'), rw (e, subscribe_pages))
      | inr (inr e) ↦ (final panics, rw (e, subscribe_pages))
    ]

    pub answer_of_ok :
        (m : PageMarker)
        → here.result ≡ ok m
        → (res : AccountTxRes R) × (answer R cfg account start_ledger end_ledger node marker
            ≡ ok res)
          × (res.marker ≡ m)
    unfolding get_account_transactions
    answer_of_ok m h = elim (Go-cases (answer R cfg account start_ledger end_ledger node marker)) [
      | inl (res, e) ↦ (
        res,
        e,
        send_items-marker R _ _ m _ _ res.transactions (rw (e, get_account_transactions) at h),
      )
      | inr (inl (e', e)) ↦ absurd (no_error _ (rw (e, get_account_transactions) at h))
      | inr (inr e) ↦ absurd (no_panic (rw (e, get_account_transactions) at h))
    ]
      where
        no_error : (e : Error) → err e ≡ ok m → ⊥
        no_error e c = cc

        no_panic : ◌≡◌ {A = Go PageMarker} panics (ok m) → ⊥
        no_panic c = cc

  shorter :
      (xs ys zs : List (TxItem R)) {n : ℕ}
      → zs ≡ xs ++ ys
      → 0 < length xs
      → length zs < suc n
      → length ys < n
  shorter xs ys zs e h k = omega (arith, ap length e, length-append xs ys)

  -- The scan ends, with a result, if the nodes page the history, no page but the last is empty,
  -- and there are more nodes than items.
  pub subscribe_pages-Ends :
      (nodes : List (Node R)) (marker : Option PageMarker) (max_latest : ℤ)
      (history : List (TxItem R))
      → length history < length nodes
      → Serves R cfg account start_ledger end_ledger marker history nodes
      → Advances nodes
      → Ends marker max_latest nodes
  subscribe_pages-Ends [] marker max_latest history enough serves adv = absurd (omega arith)
  subscribe_pages-Ends (node ∷ nodes) marker max_latest history enough serves adv =
      Ends-or_goes node nodes marker max_latest (λ m e going.
        let (res, a, same) = answer_of_ok node nodes marker max_latest m e in
        let (later, split, at_end, more) = serves res a in
        let going' : is_end res.marker ≡ false = rw same going in
        subscribe_pages-Ends nodes (some m) _ later
          (shorter res.transactions later history split (adv.0 marker res a going') enough)
          (subst (λ k. Serves R cfg account start_ledger end_ledger (some k) later nodes) same
            (more going'))
          adv.1)
