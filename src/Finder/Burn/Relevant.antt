-- ===== src/Finder/Burn/Relevant.antt =====
-- Which balances count towards a burn: those in the delivered currency that the account issues or
-- holds against the issuer.
use mathlib.Core.Path.{fun_ext}
use tx_xrpl_token_migrator.Base.{
  ◌≡◌, refl, ap, inl, inr, Bool, false, ◌&&◌, ◌||◌, Option, some, List, [], ◌∷◌, filter, arith,
  Bool-cases,
}
use tx_xrpl_token_migrator.Base.Go.{ok, ◌>>=◌}
use tx_xrpl_token_migrator.Ripple.{Ripple, Amount, Balance, Account}
use tx_xrpl_token_migrator.Finder.Burn.{
  Tally, tally_balance, tally_balances, received_at_least_delivered_amount,
}

module _ (R : Ripple) (account : Account) (d : Amount R.Value) where
  -- In the delivered currency, and either of the native coin, or issued by the account, or held
  -- against the issuer.
  abbrev pub is_relevant : Balance R.Value → Bool
  is_relevant b =
      R.currency_equals b.currency d.currency
      && (R.is_native d
          || (R.account_equals d.issuer account || R.account_equals b.counter_party d.issuer))

  tally_irrelevant :
      (b : Balance R.Value) (t : Tally R.Value)
      → is_relevant b ≡ false
      → tally_balance R account d b t ≡ ok t
  unfolding tally_balance
  tally_irrelevant b t h = ground arith

  pub tally-filter :
      (bs : List (Balance R.Value)) (t : Tally R.Value)
      → tally_balances R account d bs t ≡ tally_balances R account d (filter is_relevant bs) t
  unfolding tally_balances
  tally-filter [] t = refl
  tally-filter (b ∷ bs) t = elim (Bool-cases (is_relevant b)) [
    | inl counts ↦
        rw counts (ap (λ next. tally_balance R account d b t >>= next) (fun_ext (tally-filter bs)))
    | inr irrelevant ↦ rw (irrelevant, tally_irrelevant b t irrelevant) (tally-filter bs t)
  ]

  -- The verdict depends on the relevant balances of the account alone: two ledger changes that
  -- agree on them are judged alike.
  pub burn_relevant_only :
      (nodes nodes' : R.NodeEffects) {m m' : Account → Option (List (Balance R.Value))}
      {bs bs' : List (Balance R.Value)}
      → R.balances nodes ≡ some m
      → R.balances nodes' ≡ some m'
      → m account ≡ some bs
      → m' account ≡ some bs'
      → filter is_relevant bs ≡ filter is_relevant bs'
      → received_at_least_delivered_amount R account d nodes
        ≡ received_at_least_delivered_amount R account d nodes'
  unfolding received_at_least_delivered_amount
  burn_relevant_only nodes nodes' {bs = bs} {bs' = bs'} e e' f f' same =
      rw (e, e', f, f', tally-filter bs, tally-filter bs', same, received_at_least_delivered_amount)
