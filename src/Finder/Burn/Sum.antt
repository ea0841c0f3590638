-- ===== src/Finder/Burn/Sum.antt =====
-- The sum of the changes and the largest balance that the loop ends with.
use tx_xrpl_token_migrator.Base.{
  ◌≡◌, refl, ap, sym, ◌∙◌, inl, inr, Bool, true, some, List, [], ◌∷◌, filter, All, arith,
  Bool-cases,
}
use tx_xrpl_token_migrator.Base.Go.{ok, ◌>>=◌, >>=-eq-ok, ok_injective}
use tx_xrpl_token_migrator.Rat.{Rat, rat_abs}
use tx_xrpl_token_migrator.Ripple.{Ripple, Amount, Balance, Account}
use tx_xrpl_token_migrator.Finder.Burn.{Tally, larger, add_change, tally_balance, tally_balances}
use tx_xrpl_token_migrator.Finder.Burn.Relevant.{is_relevant}

module _ (R : Ripple) where
  -- The changes of the balances, added one after the other to what there is, amount to the total.
  abbrev pub SumsFrom : R.Value → List (Balance R.Value) → R.Value → Type 0
  SumsFrom value [] total = value ≡ total
  SumsFrom value (b ∷ bs) total =
      (next : R.Value) × (R.value_add value b.change ≡ some next) × SumsFrom next bs total

  -- There are balances, and their changes amount to the total.
  abbrev pub Sums : List (Balance R.Value) → R.Value → Type 0
  Sums [] total = ⊥
  Sums (b ∷ bs) total = SumsFrom b.change bs total

  -- The largest of a magnitude and those of the balances.
  abbrev pub largest : Rat → List (Balance R.Value) → Rat
  largest magnitude [] = magnitude
  largest magnitude (b ∷ bs) = largest (larger magnitude (rat_abs (R.value_rat b.balance))) bs

  abbrev pub tally_of : R.Value → Rat → Tally R.Value
  tally_of total magnitude = record { total = some total; max_balance_mag = magnitude }

module _ (R : Ripple) (account : Account) (d : Amount R.Value) where
  pub tally_relevant :
      (b : Balance R.Value) (t : Tally R.Value)
      → is_relevant R account d b ≡ true
      → tally_balance R account d b t ≡ (
          add_change R account d b t.total >>= λ total.
          ok (tally_of R total (larger t.max_balance_mag (rat_abs (R.value_rat b.balance)))))
  unfolding tally_balance
  tally_relevant b t h = ground arith

  tally_next :
      (b : Balance R.Value) (value next : R.Value) (magnitude : Rat)
      → is_relevant R account d b ≡ true
      → R.value_add value b.change ≡ some next
      → tally_balance R account d b (tally_of R value magnitude)
        ≡ ok (tally_of R next (larger magnitude (rat_abs (R.value_rat b.balance))))
  unfolding add_change
  tally_next b value next magnitude h e =
      tally_relevant b (tally_of R value magnitude) h ∙ rw (e, add_change) refl

  add_change-eq_ok :
      (b : Balance R.Value) (value next : R.Value)
      → add_change R account d b (some value) ≡ ok next
      → R.value_add value b.change ≡ some next
  unfolding add_change
  add_change-eq_ok b value next e = ground arith

  was_added :
      (b : Balance R.Value) (value : R.Value) (magnitude : Rat) (t : Tally R.Value)
      → is_relevant R account d b ≡ true
      → tally_balance R account d b (tally_of R value magnitude) ≡ ok t
      → (next : R.Value) × (R.value_add value b.change ≡ some next)
  was_added b value magnitude t h e =
      let (next, added, _) =
        >>=-eq-ok _ _ (sym (tally_relevant b (tally_of R value magnitude) h) ∙ e) in
      (next, add_change-eq_ok b value next added)

  pub tally-sums :
      (bs : List (Balance R.Value)) (value total : R.Value) (magnitude : Rat)
      → All (λ b. is_relevant R account d b ≡ true) bs
      → SumsFrom R value bs total
      → tally_balances R account d bs (tally_of R value magnitude)
        ≡ ok (tally_of R total (largest R magnitude bs))
  unfolding tally_balances
  tally-sums [] value total magnitude relevant sums = ap (λ v. ok (tally_of R v magnitude)) sums
  tally-sums (b ∷ bs) value total magnitude relevant (next, added, sums) =
      rw (tally_next b value next magnitude relevant.0 added) (
        tally-sums bs next total (larger magnitude (rat_abs (R.value_rat b.balance))) relevant.1
          sums)

  pub sums-tally :
      (bs : List (Balance R.Value)) (value : R.Value) (magnitude : Rat) (t : Tally R.Value)
      → All (λ b. is_relevant R account d b ≡ true) bs
      → tally_balances R account d bs (tally_of R value magnitude) ≡ ok t
      → (total : R.Value) × SumsFrom R value bs total
        × (t ≡ tally_of R total (largest R magnitude bs))
  unfolding tally_balances
  sums-tally [] value magnitude t relevant e = (value, refl, sym (ok_injective e))
  sums-tally (b ∷ bs) value magnitude t relevant e =
      let (u, first, rest) = >>=-eq-ok _ _ e in
      let (next, added) = was_added b value magnitude u relevant.0 first in
      let (total, sums, same) =
        sums-tally bs next (larger magnitude (rat_abs (R.value_rat b.balance))) t relevant.1
          (rw (tally_next b value next magnitude relevant.0 added) at e) in
      (total, (next, added, sums), same)

pub filter-All {ℓ} : {A : Type ℓ} (p : A → Bool) (xs : List A) → All (λ x. p x ≡ true) (filter p xs)
filter-All p [] = tt
filter-All p (x ∷ xs) = elim (Bool-cases (p x)) [
  | inl y ↦ rw y (y, filter-All p xs)
  | inr n ↦ rw n (filter-All p xs)
]
