-- ===== src/Xrpl/Scanner/Round.antt =====
-- The part of an account's history between two ledgers.
use mathlib.Core.Bool.{false≢true}
use tx_xrpl_token_migrator.Base.{
  ◌^◌, ◌≡◌, sym, ◌∙◌, ◌⊎◌, inl, inr, Bool, true, List, [], ◌∷◌, All, filter, arith, ◌&&◌, ◌||◌,
  Bool-cases,
}
use tx_xrpl_token_migrator.Base.Int.{ℤ, pos, ◌+ℤ◌, ◌≤ℤ◌, ◌<ℤ◌, leb_ℤ, i64, i64-id, IsI64}
use tx_xrpl_token_migrator.Ripple.{Ripple}
use tx_xrpl_token_migrator.Xrpl.Rpc.Types.{TxItem}
use tx_xrpl_token_migrator.Xrpl.Rpc.Pages.Lossless.{Ascending, IsAbove}
use tx_xrpl_token_migrator.Xrpl.Rpc.Pages.Keeps.{Ascending-weaken}
use tx_xrpl_token_migrator.Xrpl.Rpc.Pages.Bound.{IsUpTo}

next-IsI64 : (i : ℤ) → pos 0 ≤ℤ i → i <ℤ pos (2 ^ 62) → IsI64 (i +ℤ pos 1)
unfolding ◌+ℤ◌
next-IsI64 i h k = ground arith

pub i64-next : (i : ℤ) → pos 0 ≤ℤ i → i <ℤ pos (2 ^ 62) → i64 (i +ℤ pos 1) ≡ i +ℤ pos 1
i64-next i h k = i64-id (i +ℤ pos 1) (next-IsI64 i h k)

module _ (R : Ripple) where
  -- Between two ledgers, both included; an upper one that is not positive is no bound, as in a
  -- request of `account_tx`.
  abbrev pub in_window : ℤ → ℤ → TxItem R → Bool
  in_window low high x =
      leb_ℤ low x.ledger_index && (leb_ℤ high (pos 0) || leb_ℤ x.ledger_index high)

  abbrev pub window : ℤ → ℤ → List (TxItem R) → List (TxItem R)
  window low high = filter (in_window low high)

  Ascending-filter :
      (p : TxItem R → Bool) (low : ℤ) (xs : List (TxItem R))
      → Ascending R low xs
      → Ascending R low (filter p xs)
  Ascending-filter p low [] h = tt
  Ascending-filter p low (x ∷ xs) h = elim (Bool-cases (p x)) [
    | inl y ↦ rw y (h.0, h.1, Ascending-filter p x.ledger_index xs h.2)
    | inr n ↦ rw n (
        Ascending-weaken R x.ledger_index low (filter p xs) h.0
          (Ascending-filter p x.ledger_index xs h.2))
  ]

  in_window-ge : (low high : ℤ) (x : TxItem R) → in_window low high x ≡ true → low ≤ℤ x.ledger_index
  in_window-ge low high x h = ground arith

  in_window-le :
      (low high : ℤ) (x : TxItem R)
      → pos 1 ≤ℤ high
      → in_window low high x ≡ true
      → x.ledger_index ≤ℤ high
  in_window-le low high x l h = ground arith

  -- An item from the lower ledger on is in the window, or above the upper ledger.
  pub in_window_or_above :
      (low high : ℤ) (x : TxItem R)
      → low ≤ℤ x.ledger_index
      → (in_window low high x ≡ true) ⊎ ((pos 1 ≤ℤ high) × IsAbove R high x)
  in_window_or_above low high x h = elim (Bool-cases (in_window low high x)) [
    | inl y ↦ inl y
    | inr n ↦ inr (ground arith)
  ]

  pub Ascending-window :
      (low low' high : ℤ) (xs : List (TxItem R))
      → Ascending R low' xs
      → Ascending R low (window low high xs)
  Ascending-window low low' high [] h = tt
  Ascending-window low low' high (x ∷ xs) h = elim (Bool-cases (in_window low high x)) [
    | inl y ↦ rw y (in_window-ge low high x y, h.1, Ascending-filter _ x.ledger_index xs h.2)
    | inr n ↦ rw n (Ascending-window low x.ledger_index high xs h.2)
  ]

  pub window-IsUpTo :
      (low high top : ℤ) (xs : List (TxItem R))
      → pos 1 ≤ℤ high
      → high ≤ℤ top
      → All (IsUpTo R top) (window low high xs)
  window-IsUpTo low high top [] l h = tt
  window-IsUpTo low high top (x ∷ xs) l h = elim (Bool-cases (in_window low high x)) [
    | inl y ↦ rw y (up (in_window-le low high x l y), window-IsUpTo low high top xs l h)
    | inr n ↦ rw n (window-IsUpTo low high top xs l h)
  ]
    where
      up : x.ledger_index ≤ℤ high → x.ledger_index ≤ℤ top
      up k = omega arith

  pub Ascending-IsUpTo :
      (low : ℤ) (xs : List (TxItem R)) → Ascending R low xs → All (IsUpTo R (pos (2 ^ 62))) xs
  Ascending-IsUpTo low [] h = tt
  Ascending-IsUpTo low (x ∷ xs) h = (h.1, Ascending-IsUpTo x.ledger_index xs h.2)

  pub All-window {κ} :
      (P : TxItem R → Type κ) (low high : ℤ) (xs : List (TxItem R))
      → All P (window low high xs)
      → All (λ x. in_window low high x ≡ true → P x) xs
  All-window P low high [] h = tt
  All-window P low high (x ∷ xs) h = elim (Bool-cases (in_window low high x)) [
    | inl y ↦ let h' = (rw y at h) in (λ _. h'.0, All-window P low high xs h'.1)
    | inr n ↦ (λ y. absurd (false≢true (sym n ∙ y)), All-window P low high xs (rw n at h))
  ]
