-- ===== src/Finder/Burn/Exact.antt =====
-- When the summed changes of an account pass for the delivered amount.
use tx_xrpl_token_migrator.Base.{
  ◌≡◌, refl, ◌↔◌, ◌⊎◌, inl, inr, Bool, true, false, Option, some, List, [], ◌∷◌, All, filter, ap,
  arith, Bool-cases, Option-cases, leb→le, le→leb, if◌then◌else◌,
}
use tx_xrpl_token_migrator.Base.Int.{pos, ◌≤ℤ◌, leb_ℤ}
use tx_xrpl_token_migrator.Base.Go.{ok, ◌>>=◌, >>=-eq-ok, ok_injective}
use tx_xrpl_token_migrator.Rat.{Rat, rat_sub, rat_mul, rat_abs, rat_leb, zero_rat, ◌≤ℚ◌}
use tx_xrpl_token_migrator.Ripple.{Ripple, RippleLaws, Amount, Balance, Account}
use tx_xrpl_token_migrator.Finder.Burn.Sum.{
  Sums, largest, tally_of, tally_relevant, tally-sums, sums-tally, filter-All,
}
use tx_xrpl_token_migrator.Finder.Burn.Scale.{IsNear, NearSome, IsNear-scale}
use tx_xrpl_token_migrator.Finder.Burn.Relevant.{is_relevant, tally-filter}
use tx_xrpl_token_migrator.Finder.Burn.{
  Tally, add_change, larger, balance_reconciliation_epsilon, judge, tally_balances, start_tally,
  received_at_least_delivered_amount,
}

rat_leb_iff : (a b : Rat) → (rat_leb a b ≡ true) ↔ (a ≤ℚ b)
unfolding rat_leb
rat_leb_iff a b = (leb→le _ _, le→leb _ _)

module _ (R : Ripple) (account : Account) (d : Amount R.Value) where
  -- The total is at least the value; or the amount is of a token, and the total falls short of the
  -- value by no more than 1e-14 of the value or of one of the balances.
  abbrev pub Covers : R.Value → List (Balance R.Value) → R.Value → Type 0
  Covers value bs total =
      let due = R.value_rat value in
      let got = R.value_rat total in
      (due ≤ℚ got)
      ⊎ ((R.is_native d ≡ false) × (IsNear due got (rat_abs due) ⊎ NearSome R due got bs))

  module _ (L : RippleLaws R) (t : Tally R.Value) (total value : R.Value)
      (summed : t.total ≡ some total) (named : d.value ≡ some value) where
    tolerated : Bool
    tolerated = rat_leb (rat_sub (R.value_rat value) (R.value_rat total)) (
        rat_mul (larger t.max_balance_mag (rat_abs (R.value_rat value)))
          balance_reconciliation_epsilon)

    judge_value : judge R account d t ≡ (
        if leb_ℤ (pos 0) (R.value_compare total value)
        then ok true
        else if R.is_native d
        then ok false
        else ok tolerated)
    unfolding judge tolerated
    judge_value = ground arith

    judge_received : (judge R account d t ≡ ok true) ↔ (
        (R.value_rat value ≤ℚ R.value_rat total)
        ⊎ ((R.is_native d ≡ false)
            × IsNear
                (R.value_rat value)
                (R.value_rat total)
                (larger t.max_balance_mag (rat_abs (R.value_rat value)))))
    unfolding tolerated
    judge_received = elim (Bool-cases (leb_ℤ (pos 0) (R.value_compare total value))) [
      | inl enough ↦
          rw (judge_value, enough)
            (λ _. inl ((L.compare_rat total value).0 (leb→le _ _ enough)), λ _. refl)
      | inr short ↦
          let less : (R.value_rat value ≤ℚ R.value_rat total) → ⊥ =
            λ h. clash short ((L.compare_rat total value).1 h) in
          elim (Bool-cases (R.is_native d)) [
            | inl native ↦
                rw (judge_value, short, native)
                  (λ h. cc, λ h. elim h [ inl k ↦ absurd (less k) | inr k ↦ cc ])
            | inr issued ↦
                rw (judge_value, short, issued)
                  (
                    λ e. inr (refl, (rat_leb_iff _ _).0 (ok_injective e)),
                    λ h. elim h [
                      | inl k ↦ absurd (less k)
                      | inr k ↦ ap ok ((rat_leb_iff _ _).1 k.1)
                    ],
                  )
          ]
    ]
      where
        clash :
            leb_ℤ (pos 0) (R.value_compare total value) ≡ false
            → pos 0 ≤ℤ R.value_compare total value
            → ⊥
        clash e h = ground arith

  -- The verdict on a total and the scale of the loop, as it is at its end.
  judge-Covers :
      (L : RippleLaws R) (bs : List (Balance R.Value)) (total value : R.Value)
      → d.value ≡ some value
      → (judge R account d (tally_of R total (largest R zero_rat bs)) ≡ ok true)
        ↔ Covers value bs total
  judge-Covers L bs total value named =
      let (forth, back) =
        judge_received L (tally_of R total (largest R zero_rat bs)) total value refl named in
      let (near, scaled) = IsNear-scale R L value total bs in
      (
        λ e. elim (forth e) [ inl enough ↦ inl enough | inr (issued, k) ↦ inr (issued, near k) ],
        λ c. elim c [
          | inl enough ↦ back (inl enough)
          | inr (issued, k) ↦ back (inr (issued, scaled k))
        ],
      )

  -- The first relevant balance starts the sum.
  tally_first :
      (b : Balance R.Value) (bs : List (Balance R.Value))
      → is_relevant R account d b ≡ true
      → tally_balances R account d (b ∷ bs) (start_tally R account d)
        ≡ tally_balances R account d bs
            (tally_of R b.change (larger zero_rat (rat_abs (R.value_rat b.balance))))
  unfolding tally_balances start_tally add_change
  tally_first b bs h =
      rw (tally_relevant R account d b (start_tally R account d) h, add_change) refl

  relevant_verdict :
      (L : RippleLaws R) (bs : List (Balance R.Value)) (value : R.Value)
      → All (λ b. is_relevant R account d b ≡ true) bs
      → d.value ≡ some value
      → ((tally_balances R account d bs (start_tally R account d) >>= judge R account d) ≡ ok true)
        ↔ ((total : R.Value) × Sums R bs total × Covers value bs total)
  unfolding tally_balances start_tally judge
  relevant_verdict L [] value relevant named = (λ h. cc, λ h. absurd h.1)
  relevant_verdict L (b ∷ bs) value relevant named = rw (tally_first b bs relevant.0) (forth, back)
    where
      start : Rat
      start = larger zero_rat (rat_abs (R.value_rat b.balance))

      forth :
          ((tally_balances R account d bs (tally_of R b.change start) >>= judge R account d)
            ≡ ok true)
          → (total : R.Value) × Sums R (b ∷ bs) total × Covers value (b ∷ bs) total
      forth e =
          let (t, tallied, judged) = >>=-eq-ok _ _ e in
          let (total, sums, same) = sums-tally R account d bs b.change start t relevant.1 tallied in
          (total, sums, (judge-Covers L (b ∷ bs) total value named).0 (rw same at judged))

      back :
          ((total : R.Value) × Sums R (b ∷ bs) total × Covers value (b ∷ bs) total)
          → (tally_balances R account d bs (tally_of R b.change start) >>= judge R account d)
            ≡ ok true
      back (total, sums, covers) =
          rw (tally-sums R account d bs b.change total start relevant.1 sums)
            ((judge-Covers L (b ∷ bs) total value named).1 covers)

  received_tally :
      (nodes : R.NodeEffects) {m : Account → Option (List (Balance R.Value))}
      {bs : List (Balance R.Value)}
      → R.balances nodes ≡ some m
      → m account ≡ some bs
      → received_at_least_delivered_amount R account d nodes ≡ (
          tally_balances R account d (filter (is_relevant R account d) bs) (start_tally R account d)
          >>= judge R account d)
  unfolding received_at_least_delivered_amount
  received_tally nodes {bs = bs} e f =
      rw (e, f, tally-filter R account d bs, received_at_least_delivered_amount) refl

  judge-value :
      (t : Tally R.Value)
      → judge R account d t ≡ ok true
      → (value : R.Value) × (d.value ≡ some value)
  unfolding judge
  judge-value t h = elim (Option-cases d.value) [
    | inr named ↦ named
    | inl missing ↦ absurd (ground arith)
  ]

  -- An amount that passes for received has a value.
  pub received-value :
      (nodes : R.NodeEffects)
      → received_at_least_delivered_amount R account d nodes ≡ ok true
      → (value : R.Value) × (d.value ≡ some value)
  unfolding received_at_least_delivered_amount
  received-value nodes h = elim (Option-cases (R.balances nodes)) [
    | inl none_given ↦ absurd (ground arith)
    | inr (balances, given) ↦ elim (Option-cases (balances account)) [
      | inl no_account ↦ absurd (ground arith)
      | inr (bs, listed) ↦
          let (t, tallied, judged) =
            >>=-eq-ok (tally_balances R account d bs (start_tally R account d)) (judge R account d)
              (rw (given, listed, received_at_least_delivered_amount) at h) in
          judge-value t judged
    ]
  ]

  -- Let the ledger changes list balances of the account, and the delivered amount have a value. The
  -- amount passes for received exactly if there are relevant balances, their changes, added one
  -- after the other without a sum out of range, amount to a total, and that total is at least the
  -- value, or, where the amount is not of the native coin, falls short of it by no more than 1e-14
  -- of the value or of one of the relevant balances.
  pub burn_received :
      (L : RippleLaws R) (nodes : R.NodeEffects) (value : R.Value)
      {m : Account → Option (List (Balance R.Value))} {bs : List (Balance R.Value)}
      → R.balances nodes ≡ some m
      → m account ≡ some bs
      → d.value ≡ some value
      → (received_at_least_delivered_amount R account d nodes ≡ ok true) ↔ (
          (total : R.Value) × Sums R (filter (is_relevant R account d) bs) total
          × Covers value (filter (is_relevant R account d) bs) total)
  burn_received L nodes value {bs = bs} e f named = rw (received_tally nodes e f) (
      relevant_verdict L (filter (is_relevant R account d) bs) value
        (filter-All (is_relevant R account d) bs) named)
