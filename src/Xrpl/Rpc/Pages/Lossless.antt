-- ===== src/Xrpl/Rpc/Pages/Lossless.antt =====
-- A scan of the pages loses nothing: what has not been sent lies above the index that the scan
-- returns, so that a scan from the next index on finds it again.
use tx_xrpl_token_migrator.Base.{
  ℕ, ◌^◌, ◌≡◌, ◌≢◌, refl, sym, ap, ◌∙◌, subst, ◌⊎◌, inl, inr, Bool, true, Option, List, [], ◌∷◌,
  ◌++◌, Memᴰ, All, All-map, All-append_left, All-append_right, arith, Bool-cases,
}
use tx_xrpl_token_migrator.Base.Int.{ℤ, pos, ◌-ℤ◌, ◌≤ℤ◌, ◌<ℤ◌, i64, i64-id, IsI64, int_laws}
use tx_xrpl_token_migrator.Base.Go.{ok, ok_injective, Cause, Go-cases}
use tx_xrpl_token_migrator.Ripple.{Ripple}
use tx_xrpl_token_migrator.Xrpl.Model.{Transaction}
use tx_xrpl_token_migrator.Xrpl.Rpc.Types.{PageMarker, TxItem}
use tx_xrpl_token_migrator.Xrpl.Rpc.Convert.{convert_tx_info_to_transaction}
use tx_xrpl_token_migrator.Xrpl.Rpc.Pages.{
  Sent, item_transaction, send_items, is_done, countdown, prepend,
}

-- Far above any ledger index of the XRPL, and far below the wrap of an int64.
abbrev pub IsLedger : ℤ → Type 0
IsLedger i = (pos 1 ≤ℤ i) × (i ≤ℤ pos (2 ^ 62))

before-IsI64 : (i : ℤ) → IsLedger i → IsI64 (i -ℤ pos 1)
unfolding ◌-ℤ◌
before-IsI64 i h = ground arith

pub i64-before : (i : ℤ) → IsLedger i → i64 (i -ℤ pos 1) ≡ i -ℤ pos 1
i64-before i h = i64-id (i -ℤ pos 1) (before-IsI64 i h)

module _ (R : Ripple) where
  -- Items in the order of their ledgers, from `low` on.
  abbrev pub Ascending : ℤ → List (TxItem R) → Type 0
  Ascending low [] = Unit
  Ascending low (x ∷ xs) =
      (low ≤ℤ x.ledger_index) × (x.ledger_index ≤ℤ pos (2 ^ 62)) × Ascending x.ledger_index xs

  -- The item has reached the channel.
  abbrev pub WasSent : List (Transaction R) → TxItem R → Type 0
  WasSent trace x = (txn : Transaction R) × (item_transaction R x ≡ ok (txn, true)) × Memᴰ txn trace

  abbrev pub IsAbove : ℤ → TxItem R → Type 0
  IsAbove i x = i <ℤ x.ledger_index

  pub All-Ascending :
      (low low' : ℤ) (xs : List (TxItem R)) → Ascending low xs → low' <ℤ low → All (IsAbove low') xs
  All-Ascending low low' [] h l = tt
  All-Ascending low low' (x ∷ xs) h l =
      (omega arith, All-Ascending x.ledger_index low' xs h.2 (omega arith))

  -- All items lie above the index before the first.
  pub Ascending-before :
      (low : ℤ) (xs : List (TxItem R))
      → IsLedger low
      → Ascending low xs
      → All (IsAbove (i64 (low -ℤ pos 1))) xs
  Ascending-before low xs l h =
      subst (λ i. All (IsAbove i) xs) (sym (i64-before low l))
        (All-Ascending low (low -ℤ pos 1) xs h (omega int_laws))

  item_valid :
      (x : TxItem R) (txn : Transaction R) (valid : Bool)
      → item_transaction R x ≡ ok (txn, valid)
      → valid ≡ true
  unfolding item_transaction convert_tx_info_to_transaction
  item_valid x txn valid h = ground arith

  -- What a page leaves behind.
  pub record PageKeeps (marker : PageMarker) (items later : List (TxItem R)) (s : Sent R PageMarker)
      : Type 0 where
    pub kept : All (λ x. WasSent s.sent x ⊎ IsAbove s.latest_index x) items
    pub beyond : All (IsAbove s.latest_index) later
    pub complete : (m : PageMarker) → s.result ≡ ok m → All (WasSent s.sent) items × (m ≡ marker)

  module _ (cause : Cause) (marker : PageMarker) where
    -- A loop that stops here sends nothing, and is below all that is left.
    stops :
        (s : Sent R PageMarker) (items later : List (TxItem R))
        → s.sent ≡ []
        → All (IsAbove s.latest_index) (items ++ later)
        → ((m : PageMarker) → s.result ≢ ok m)
        → PageKeeps marker items later s
    stops s items later none_sent above failed = record {
      kept =
          All-map items (λ x h. inr h) (All-append_left (IsAbove s.latest_index) items later above);
      beyond = All-append_right (IsAbove s.latest_index) items later above;
      complete = λ m h. absurd (failed m h);
    }

    sends :
        (txn : Transaction R) (x : TxItem R) (items later : List (TxItem R)) (s : Sent R PageMarker)
        → item_transaction R x ≡ ok (txn, true)
        → PageKeeps marker items later s
        → PageKeeps marker (x ∷ items) later (prepend R txn s)
    sends txn x items later s e h = record {
      kept = (inl (txn, e, Memᴰ.head refl), All-map items moved h.kept);
      beyond = h.beyond;
      complete = λ m r.
          let (all, same) = h.complete m r in
          (((txn, e, Memᴰ.head refl), All-map items also_sent all), same);
    }
      where
        also_sent : (y : TxItem R) → WasSent s.sent y → WasSent (txn ∷ s.sent) y
        also_sent y (t, f, m) = (t, f, Memᴰ.tail m)

        moved :
            (y : TxItem R)
            → WasSent s.sent y ⊎ IsAbove s.latest_index y
            → WasSent (txn ∷ s.sent) y ⊎ IsAbove s.latest_index y
        moved y (inl w) = inl (also_sent y w)
        moved y (inr a) = inr a

    pub send_items-PageKeeps :
        (left : Option ℕ) (latest : ℤ) (items later : List (TxItem R))
        → IsLedger latest
        → Ascending latest (items ++ later)
        → PageKeeps marker items later (send_items R cause marker left latest items)
    unfolding send_items
    send_items-PageKeeps left latest [] later l h = record {
      kept = tt;
      beyond = Ascending-before latest later l h;
      complete = λ m e. (tt, sym (ok_injective e));
    }
    send_items-PageKeeps left latest (x ∷ items) later l h =
        elim (Go-cases (item_transaction R x)) [
          | inl ((txn, valid), e) ↦
              let e' : item_transaction R x ≡ ok (txn, true) =
                e ∙ ap (λ (v : Bool). ok (txn, v)) (item_valid x txn valid e) in
              elim (Bool-cases (is_done left)) [
                | inl done ↦
                    rw (e', done, send_items) (stops _ (x ∷ items) later refl at_zero (λ m c. cc))
                | inr going ↦
                    rw (e', going, send_items)
                      (sends txn x items later _ e' (
                        send_items-PageKeeps (countdown left) x.ledger_index items later in_range
                          h.2))
              ]
          | inr (inl (e', e)) ↦
              rw (e, send_items)
                (stops _ (x ∷ items) later refl
                  (Ascending-before x.ledger_index ((x ∷ items) ++ later) in_range again)
                  (λ m c. cc))
          | inr (inr e) ↦ rw (e, send_items) (stops _ (x ∷ items) later refl at_zero (λ m c. cc))
        ]
      where
        in_range : IsLedger x.ledger_index
        in_range = omega arith

        again : Ascending x.ledger_index ((x ∷ items) ++ later)
        again = (omega arith, h.1, h.2)

        at_zero : All (IsAbove (pos 0)) ((x ∷ items) ++ later)
        at_zero = All-Ascending latest (pos 0) ((x ∷ items) ++ later) h (omega arith)
