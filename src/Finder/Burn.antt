-- ===== src/Finder/Burn.antt =====
-- `receivedAtLeastDeliveredAmount` of relayer/finder/finder.go: whether the ledger changes of a
-- transaction show that the account received the delivered amount.
pub mod Relevant
pub mod Sum
pub mod Scale
pub mod Exact
use tx_xrpl_token_migrator.Base.{
  Bool, true, false, not, ◌&&◌, Option, none, some, List, [], ◌∷◌, if◌then◌else◌,
}
use tx_xrpl_token_migrator.Base.Int.{pos, leb_ℤ}
use tx_xrpl_token_migrator.Base.Str.{codes}
use tx_xrpl_token_migrator.Base.Go.{Go, ok, err, panics, ◌>>=◌, new_error, or_panic}
use tx_xrpl_token_migrator.Rat.{Rat, zero_rat, rat_mul, rat_sub, rat_abs, rat_ltb, rat_leb}
use tx_xrpl_token_migrator.Ripple.{Ripple, Amount, Balance, Account}

-- `balanceReconciliationEpsilon`, 1e-14
abbrev pub balance_reconciliation_epsilon : Rat
balance_reconciliation_epsilon = record { num = pos 1; den = 100_000_000_000_000 }

-- The variables of the loop: `total`, none as long as `found` is false, and `maxBalanceMag`.
pub record Tally (V : Type 0) : Type 0 where
  pub total : Option V
  pub max_balance_mag : Rat

-- The larger of two magnitudes; the first of two equal ones.
unfoldable pub larger : Rat → Rat → Rat
larger a b = if rat_ltb a b then b else a

module _ (R : Ripple) (account : Account) (d : Amount R.Value) where
  unfoldable pub start_tally : Tally R.Value
  start_tally = record { total = none; max_balance_mag = zero_rat }

  -- `total.Add(balance.Change)`, or the first change.
  unfoldable pub add_change : Balance R.Value → Option R.Value → Go R.Value
  add_change b none = ok b.change
  add_change b (some total) = elim (R.value_add total b.change) [
    | none ↦ err (new_error (codes "failed to sum the balance changes"))
    | some sum ↦ ok sum
  ]

  -- One round of the loop.
  unfoldable pub tally_balance : Balance R.Value → Tally R.Value → Go (Tally R.Value)
  unfolding add_change larger
  tally_balance b t =
      if not (R.currency_equals b.currency d.currency)
      then ok t
      else if not (R.is_native d)
          && (not (R.account_equals d.issuer account)
              && not (R.account_equals b.counter_party d.issuer))
      then ok t
      else add_change b t.total >>= λ total. ok (record {
        total = some total;
        max_balance_mag = larger t.max_balance_mag (rat_abs (R.value_rat b.balance));
      })

  unfoldable pub tally_balances : List (Balance R.Value) → Tally R.Value → Go (Tally R.Value)
  tally_balances [] t = ok t
  tally_balances (b ∷ bs) t = tally_balance b t >>= tally_balances bs

  -- What follows the loop.
  unfoldable pub judge : Tally R.Value → Go Bool
  unfolding larger
  judge t = elim t.total [
    | none ↦ ok false
    | some total ↦ or_panic d.value >>= λ value.
        if leb_ℤ (pos 0) (R.value_compare total value)
        then ok true
        else if R.is_native d
        then ok false
        else let scale = larger t.max_balance_mag (rat_abs (R.value_rat value)) in
          let shortfall = rat_sub (R.value_rat value) (R.value_rat total) in
          let tolerance = rat_mul scale balance_reconciliation_epsilon in
          ok (rat_leb shortfall tolerance)
  ]

  unfoldable pub received_at_least_delivered_amount : R.NodeEffects → Go Bool
  unfolding start_tally tally_balances judge
  received_at_least_delivered_amount nodes = elim (R.balances nodes) [
    | none ↦ err (new_error (codes "failed to compute balance changes from the XRPL tx metadata"))
    | some balances ↦ elim (balances account) [
      | none ↦ ok false
      | some account_balances ↦ tally_balances account_balances start_tally >>= judge
    ]
  ]
