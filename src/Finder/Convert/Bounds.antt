-- ===== src/Finder/Convert/Bounds.antt =====
-- The converted amount is the exact product rounded down, and splitting a burn gains nothing.
use native.Mathlib.Nat.{
  div-le_self, le-div_iff_mul-le, div-mul-le_self, lt-div-mul-add, le_of_mul-le-mul_right,
  mul-le-mul_right, one-le-mul,
}
use mathlib.Core.Option.{none-ne-some, some-injective}
use tx_xrpl_token_migrator.Base.{
  ℕ, Bool-cases, Option-cases, inl, inr, subst, if◌then◌else◌, ◌+◌, ◌*◌, ◌/◌, ◌^◌, ◌≤◌, ◌<◌, ◌≡◌,
  refl, ◌∙◌, some, arith,
}
use tx_xrpl_token_migrator.Base.Int.{
  ℤ, pos, eqb_ℤ, quo, ◌≤ℤ◌, ◌+ℤ◌, ◌*ℤ◌, *ℤ_pos, quo-pos, int_laws,
}
use tx_xrpl_token_migrator.Base.Str.{Str}
use tx_xrpl_token_migrator.Base.Go.{ok, or_panic-eq-ok}
use tx_xrpl_token_migrator.Rat.{Rat, IsRat, RatParser, rat_mul, one_rat}
use tx_xrpl_token_migrator.Ripple.{Ripple, RippleLaws}
use tx_xrpl_token_migrator.Sdk.{Sdk, SdkLaws}
use tx_xrpl_token_migrator.Finder.Convert.{
  multiplier_text, multiplier_rat, convert_xrpl_amount_to_tx_amount,
}

-- Three floors: if x₁/y₁ + x₂/y₂ ≤ x₃/y₃, so are the rounded quotients.
floor_split :
    (x₁ y₁ x₂ y₂ x₃ y₃ : ℕ)
    → 0 < y₁
    → 0 < y₂
    → 0 < y₃
    → x₁ * y₂ * y₃ + x₂ * y₁ * y₃ ≤ x₃ * y₁ * y₂
    → x₁ / y₁ + x₂ / y₂ ≤ x₃ / y₃
floor_split x₁ y₁ x₂ y₂ x₃ y₃ p₁ p₂ p₃ h =
    (le-div_iff_mul-le p₃).1 (le_of_mul-le-mul_right scaled (one-le-mul p₁ p₂))
  where
    scaled : (x₁ / y₁ + x₂ / y₂) * y₃ * (y₁ * y₂) ≤ x₃ * (y₁ * y₂)
    scaled = omega (
      arith,
      mul-le-mul_right (y₂ * y₃) (div-mul-le_self x₁ y₁),
      mul-le-mul_right (y₁ * y₃) (div-mul-le_self x₂ y₂),
    )

multiplier_rat-IsRat :
    (P : RatParser) (mult : Str) (q : Rat) → multiplier_rat P mult ≡ some q → IsRat q
unfolding multiplier_rat
multiplier_rat-IsRat P mult q h = elim (Option-cases (P.set_string (multiplier_text mult))) [
  | inl e ↦ absurd (none-ne-some q (rw (e, multiplier_rat) at h))
  | inr (r, e) ↦
      by_test r (P.set_string_pos _ r e) (some-injective _ _ (rw (e, multiplier_rat) at h))
]
  where
    by_test : (r : Rat) → IsRat r → (if eqb_ℤ r.num (pos 0) then one_rat else r) ≡ q → IsRat q
    by_test r p e = elim (Bool-cases (eqb_ℤ r.num (pos 0))) [
      | inl z ↦ subst IsRat (rw z at e) (omega arith)
      | inr z ↦ subst IsRat (rw z at e) p
    ]

module _ {R : Ripple} {S : Sdk} (P : RatParser) (LR : RippleLaws R) (LS : SdkLaws S) where
  product :
      (v : R.Value) (d a m : ℕ) (q : Rat)
      → (R.value_rat v).num ≡ pos a
      → q.num ≡ pos m
      → quo (pos (10 ^ d) *ℤ (rat_mul (R.value_rat v) q).num) (rat_mul (R.value_rat v) q).den
        ≡ pos (10 ^ d * (a * m) / ((R.value_rat v).den * q.den))
  unfolding rat_mul
  product v d a m q ha hm = rw (ha, hm, *ℤ_pos a m, *ℤ_pos (10 ^ d) (a * m), quo-pos) refl

  convert_floor :
      (v : R.Value) (d : ℕ) (mult : Str) (a m : ℕ) (q : Rat) {t : ℤ}
      → (R.value_rat v).num ≡ pos a
      → multiplier_rat P mult ≡ some q
      → q.num ≡ pos m
      → convert_xrpl_amount_to_tx_amount R S P (some v) d mult ≡ ok t
      → t ≡ pos (10 ^ d * (a * m) / ((R.value_rat v).den * q.den))
  unfolding convert_xrpl_amount_to_tx_amount
  convert_floor v d mult a m q ha hq hm h =
      LS.int_value _ _ (or_panic-eq-ok _ (rw (hq, convert_xrpl_amount_to_tx_amount) at h))
      ∙ product v d a m q ha hm

  -- An amount a/b at the multiplier m/n, not negative and within 256 bits, is converted to the
  -- number n that is the exact product 10^d·a·m/(b·n) rounded down.
  pub convert_bounds :
      (v : R.Value) (d : ℕ) (mult : Str) (a m : ℕ) (q : Rat)
      → (R.value_rat v).num ≡ pos a
      → multiplier_rat P mult ≡ some q
      → q.num ≡ pos m
      → 10 ^ d * (a * m) < 2 ^ 256
      → (t : ℕ) × (convert_xrpl_amount_to_tx_amount R S P (some v) d mult ≡ ok (pos t))
        × (t * ((R.value_rat v).den * q.den) ≤ 10 ^ d * (a * m))
        × (10 ^ d * (a * m) < (t + 1) * ((R.value_rat v).den * q.den))
  unfolding convert_xrpl_amount_to_tx_amount
  convert_bounds v d mult a m q ha hq hm fits = (
    n,
    rw (hq, convert_xrpl_amount_to_tx_amount, product v d a m q ha hm, LS.int_fits (pos n) small)
        refl,
    div-mul-le_self x y,
    omega (arith, lt-div-mul-add {a = x} positive),
  )
    where
      x : ℕ
      x = 10 ^ d * (a * m)

      y : ℕ
      y = (R.value_rat v).den * q.den

      n : ℕ
      n = x / y

      positive : 0 < y
      positive = one-le-mul (LR.rat_pos v) (multiplier_rat-IsRat P mult q hq)

      small : n + 0 < 2 ^ 256
      small = omega (arith, div-le_self x y)

  -- Splitting a burn gains nothing: two amounts that together are no more than a third are
  -- converted to no more than the third.
  pub convert_split :
      (v w u : R.Value) (d : ℕ) (mult : Str) (a b c m : ℕ) (q : Rat) {t₁ t₂ t₃ : ℤ}
      → (R.value_rat v).num ≡ pos a
      → (R.value_rat w).num ≡ pos b
      → (R.value_rat u).num ≡ pos c
      → multiplier_rat P mult ≡ some q
      → q.num ≡ pos m
      → a * (R.value_rat w).den * (R.value_rat u).den
          + b * (R.value_rat v).den * (R.value_rat u).den
        ≤ c * (R.value_rat v).den * (R.value_rat w).den
      → convert_xrpl_amount_to_tx_amount R S P (some v) d mult ≡ ok t₁
      → convert_xrpl_amount_to_tx_amount R S P (some w) d mult ≡ ok t₂
      → convert_xrpl_amount_to_tx_amount R S P (some u) d mult ≡ ok t₃
      → t₁ +ℤ t₂ ≤ℤ t₃
  convert_split v w u d mult a b c m q ha hb hc hq hm h k₁ k₂ k₃ =
      rw
        (
          convert_floor v d mult a m q ha hq hm k₁,
          convert_floor w d mult b m q hb hq hm k₂,
          convert_floor u d mult c m q hc hq hm k₃,
        )
        (omega (int_laws, floor_split _ _ _ _ _ _ (positive v) (positive w) (positive u) scaled))
    where
      positive : (z : R.Value) → 0 < (R.value_rat z).den * q.den
      positive z = one-le-mul (LR.rat_pos z) (multiplier_rat-IsRat P mult q hq)

      scaled :
          10 ^ d * (a * m) * ((R.value_rat w).den * q.den) * ((R.value_rat u).den * q.den)
            + 10 ^ d * (b * m) * ((R.value_rat v).den * q.den) * ((R.value_rat u).den * q.den)
          ≤ 10 ^ d * (c * m) * ((R.value_rat v).den * q.den) * ((R.value_rat w).den * q.den)
      scaled = omega (arith, mul-le-mul_right (10 ^ d * m * q.den * q.den) h)
