-- ===== src/Xrpl/Scanner/Covers.antt =====
-- One round of a scan: what the history holds above the old index is sent or lies above the new
-- one.
use tx_xrpl_token_migrator.Base.{
  ◌^◌, ◌≡◌, ◌⊎◌, inl, inr, true, none, some, List, ◌++◌, All, All-map₂, mem-append_left,
  mem-append_right, arith,
}
use tx_xrpl_token_migrator.Base.Int.{ℤ, pos, ◌+ℤ◌, ◌≤ℤ◌, ◌<ℤ◌, i64, i64-id, IsI64, int_laws}
use tx_xrpl_token_migrator.Base.Go.{ok}
use tx_xrpl_token_migrator.Ripple.{Ripple, Account}
use tx_xrpl_token_migrator.Xrpl.Model.{Transaction}
use tx_xrpl_token_migrator.Xrpl.Rpc.Types.{TxItem, Node}
use tx_xrpl_token_migrator.Xrpl.Rpc.Pages.{
  RpcClientConfig, Sent, larger_index, subscribe_account_transactions,
}
use tx_xrpl_token_migrator.Xrpl.Rpc.Pages.Lossless.{IsLedger, Ascending, WasSent, IsAbove}
use tx_xrpl_token_migrator.Xrpl.Rpc.Pages.Keeps.{Serves}
use tx_xrpl_token_migrator.Xrpl.Rpc.Pages.Subscribe.{subscribe_lossless, subscribe_complete}
use tx_xrpl_token_migrator.Xrpl.Rpc.Pages.Bound.{IsUpTo, subscribe_bounds}
use tx_xrpl_token_migrator.Xrpl.Scanner.Round.{
  in_window, in_window_or_above, window, Ascending-window, window-IsUpTo, Ascending-IsUpTo,
  All-window,
}

next-IsI64 : (i : ℤ) → pos 0 ≤ℤ i → i <ℤ pos (2 ^ 62) → IsI64 (i +ℤ pos 1)
unfolding ◌+ℤ◌
next-IsI64 i h k = ground arith

pub i64-next : (i : ℤ) → pos 0 ≤ℤ i → i <ℤ pos (2 ^ 62) → i64 (i +ℤ pos 1) ≡ i +ℤ pos 1
i64-next i h k = i64-id (i +ℤ pos 1) (next-IsI64 i h k)

module _ (R : Ripple) (rpc : RpcClientConfig) (account : Account) (history : List (TxItem R)) where
  -- Every item of the history has been sent or lies above the index.
  pub record Covers (index : ℤ) (trace : List (Transaction R)) : Type 0 where
    pub from_zero : pos 0 ≤ℤ index
    pub in_range : index <ℤ pos (2 ^ 62)
    pub kept : All (λ x. WasSent R trace x ⊎ IsAbove R index x) history

  -- The nodes page the account's history, whatever window of it is asked for.
  abbrev pub ServesAll : List (Node R) → Type 0
  ServesAll nodes =
      (low high : ℤ)
      → pos 1 ≤ℤ low
      → Serves R rpc account low high none (window R low high history) nodes

  module _ (low end_ledger index : ℤ) (trace : List (Transaction R)) (nodes : List (Node R))
      (s : Sent R (Unit {0})) (asc : Ascending R low history) (c : Covers index trace)
      (serves : ServesAll nodes)
      (h : subscribe_account_transactions R rpc account (i64 (index +ℤ pos 1)) end_ledger nodes
        ≡ some s) where
    start : ℤ
    start = index +ℤ pos 1

    top : ℤ
    top = larger_index end_ledger start

    at_start : subscribe_account_transactions R rpc account start end_ledger nodes ≡ some s
    unfolding start
    at_start = rw (i64-next index c.from_zero c.in_range) at h

    IsLedger-start : IsLedger start
    unfolding start
    IsLedger-start = (omega (int_laws, c.from_zero), omega (int_laws, c.in_range))

    bounds_up_to :
        (t : ℤ)
        → start ≤ℤ t
        → All (IsUpTo R t) (window R start end_ledger history)
        → (pos 0 ≤ℤ s.latest_index) × (s.latest_index <ℤ t)
    bounds_up_to t up all =
        subscribe_bounds R t rpc account start end_ledger nodes (window R start end_ledger history)
          s IsLedger-start up (Ascending-window R start low end_ledger history asc) all
          (serves start end_ledger IsLedger-start.0) at_start

    larger-le : (a b x : ℤ) → a ≤ℤ x → b ≤ℤ x → larger_index a b ≤ℤ x
    larger-le a b x h k = ground arith

    larger-ge : (a b : ℤ) → (a ≤ℤ larger_index a b) × (b ≤ℤ larger_index a b)
    larger-ge a b = ground arith

    start-le : (x : TxItem R) → IsAbove R index x → start ≤ℤ x.ledger_index
    unfolding start
    start-le x a = omega (int_laws, a)

    bounds : (pos 0 ≤ℤ s.latest_index) × (s.latest_index <ℤ pos (2 ^ 62))
    bounds =
        bounds_up_to (pos (2 ^ 62)) IsLedger-start.1
          (Ascending-IsUpTo R start _ (Ascending-window R start low end_ledger history asc))

    -- Above the window and above the old index is above the new index.
    beyond :
        (x : TxItem R)
        → IsAbove R index x
        → pos 1 ≤ℤ end_ledger
        → end_ledger ≤ℤ x.ledger_index
        → IsAbove R s.latest_index x
    unfolding top
    beyond x a one b = omega (
      arith,
      (bounds_up_to top (larger-ge end_ledger start).1
          (window-IsUpTo R start end_ledger top history one (larger-ge end_ledger start).0)).1,
      larger-le end_ledger start x.ledger_index b (start-le x a),
    )

    after :
        (x : TxItem R)
        → WasSent R trace x ⊎ IsAbove R index x
        → (in_window R start end_ledger x ≡ true → WasSent R s.sent x ⊎ IsAbove R s.latest_index x)
        → WasSent R (trace ++ s.sent) x ⊎ IsAbove R s.latest_index x
    after x (inl (txn, e, m)) f = inl (txn, e, mem-append_left s.sent m)
    after x (inr a) f = elim (in_window_or_above R start end_ledger x (start-le x a)) [
      | inl y ↦ later (f y)
      | inr (one, b) ↦ inr (beyond x a one (omega arith))
    ]
      where
        later :
            WasSent R s.sent x ⊎ IsAbove R s.latest_index x
            → WasSent R (trace ++ s.sent) x ⊎ IsAbove R s.latest_index x
        later (inl (txn, e, m)) = inl (txn, e, mem-append_right trace m)
        later (inr b) = inr b

    pub round-Covers : Covers s.latest_index (trace ++ s.sent)
    round-Covers = record {
      from_zero = bounds.0;
      in_range = bounds.1;
      kept = All-map₂ history after c.kept (
          All-window R _ start end_ledger history (
            subscribe_lossless R rpc account start end_ledger nodes
              (window R start end_ledger history) s IsLedger-start
              (Ascending-window R start low end_ledger history asc)
              (serves start end_ledger IsLedger-start.0) at_start));
    }

    reached :
        (x : TxItem R)
        → WasSent R trace x ⊎ IsAbove R index x
        → (in_window R start end_ledger x ≡ true → WasSent R s.sent x)
        → WasSent R (trace ++ s.sent) x ⊎ IsAbove R end_ledger x
    reached x (inl (txn, e, m)) f = inl (txn, e, mem-append_left s.sent m)
    reached x (inr a) f = elim (in_window_or_above R start end_ledger x (start-le x a)) [
      | inl y ↦ let (txn, e, m) = f y in inl (txn, e, mem-append_right trace m)
      | inr (one, b) ↦ inr b
    ]

    -- A round without an error has sent what the history holds up to its end ledger.
    pub round_sends :
        s.result ≡ ok tt → All (λ x. WasSent R (trace ++ s.sent) x ⊎ IsAbove R end_ledger x) history
    round_sends e = All-map₂ history reached c.kept (
        All-window R _ start end_ledger history (
          subscribe_complete R rpc account start end_ledger nodes
            (window R start end_ledger history) s IsLedger-start
            (Ascending-window R start low end_ledger history asc)
            (serves start end_ledger IsLedger-start.0) at_start e))
