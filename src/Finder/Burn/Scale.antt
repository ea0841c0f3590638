-- ===== src/Finder/Burn/Scale.antt =====
-- The tolerance of a sum that falls short: 1e-14 of the largest of the magnitudes.
use tx_xrpl_token_migrator.Base.{
  ◌^◌, refl, subst, ◌↔◌, ◌⊎◌, inl, inr, List, [], ◌∷◌, Memᴰ, arith, Bool-cases, mem_cons-cases,
  not_mem_nil,
}
use tx_xrpl_token_migrator.Base.Int.{pos, ◌*ℤ◌}
use tx_xrpl_token_migrator.Rat.{Rat, IsRat, zero_rat, rat_sub, rat_mul, rat_abs, rat_ltb, ◌≤ℚ◌}
use tx_xrpl_token_migrator.Rat.Order.{≤ℚ-trans, rat_mul-mono_left}
use tx_xrpl_token_migrator.Ripple.{Ripple, RippleLaws, Balance}
use tx_xrpl_token_migrator.Finder.Burn.{larger}
use tx_xrpl_token_migrator.Finder.Burn.Sum.{largest}

-- What is got falls short of what is due by no more than 1e-14 of the magnitude.
abbrev pub IsNear : Rat → Rat → Rat → Type 0
IsNear due got magnitude =
    rat_sub due got ≤ℚ rat_mul magnitude (record { num = pos 1; den = 10 ^ 14 })

pub IsNear-mono : (due got a b : Rat) → IsRat a → a ≤ℚ b → IsNear due got a → IsNear due got b
unfolding rat_mul
IsNear-mono due got a b positive h near =
    ≤ℚ-trans (rat_sub due got) (rat_mul a (record { num = pos 1; den = 10 ^ 14 })) _ (omega arith)
      near (rat_mul-mono_left a b 1 (10 ^ 14) h)

le-larger_left : (a b : Rat) → a ≤ℚ larger a b
unfolding larger rat_ltb
le-larger_left a b = ground arith

le-larger_right : (a b : Rat) → b ≤ℚ larger a b
unfolding larger rat_ltb
le-larger_right a b = ground arith

pub larger-IsRat : (a b : Rat) → IsRat a → IsRat b → IsRat (larger a b)
unfolding larger
larger-IsRat a b h k = ground arith

pub IsNear-larger :
    (due got a b : Rat)
    → IsRat a
    → IsRat b
    → IsNear due got (larger a b) ↔ (IsNear due got a ⊎ IsNear due got b)
unfolding larger
IsNear-larger due got a b ha hb = (
  forth,
  λ h. elim h [
    | inl near ↦ IsNear-mono due got a (larger a b) ha (le-larger_left a b) near
    | inr near ↦ IsNear-mono due got b (larger a b) hb (le-larger_right a b) near
  ],
)
  where
    forth : IsNear due got (larger a b) → IsNear due got a ⊎ IsNear due got b
    forth near = elim (Bool-cases (rat_ltb a b)) [
      | inl y ↦ inr (rw y at near)
      | inr n ↦ inl (rw n at near)
    ]

pub rat_abs-IsRat : (a : Rat) → IsRat a → IsRat (rat_abs a)
unfolding rat_abs
rat_abs-IsRat a h = h

pub zero-le-abs : (a : Rat) → zero_rat ≤ℚ rat_abs a
unfolding rat_abs ◌*ℤ◌
zero-le-abs a = ground arith

module _ (R : Ripple) (due got : Rat) where
  -- Near by the magnitude of one of the balances.
  abbrev pub NearSome : List (Balance R.Value) → Type 0
  NearSome bs = (b : Balance R.Value) × Memᴰ b bs × IsNear due got (rat_abs (R.value_rat b.balance))

module _ (R : Ripple) (L : RippleLaws R) where
  magnitude : Balance R.Value → Rat
  magnitude b = rat_abs (R.value_rat b.balance)

  magnitude-IsRat : (b : Balance R.Value) → IsRat (magnitude b)
  unfolding magnitude
  magnitude-IsRat b = rat_abs-IsRat (R.value_rat b.balance) (L.rat_pos b.balance)

  largest-IsRat :
      (bs : List (Balance R.Value)) (start : Rat) → IsRat start → IsRat (largest R start bs)
  unfolding magnitude
  largest-IsRat [] start h = h
  largest-IsRat (b ∷ bs) start h =
      largest-IsRat bs (larger start (magnitude b))
        (larger-IsRat start (magnitude b) h (magnitude-IsRat b))

  -- One round more: the larger of the start and a balance is near by one of the two.
  IsNear-round :
      (due got : Rat) (b : Balance R.Value) (bs : List (Balance R.Value)) (start : Rat)
      → IsRat start
      → (IsNear due got (larger start (magnitude b)) ⊎ NearSome R due got bs)
        ↔ (IsNear due got start ⊎ NearSome R due got (b ∷ bs))
  unfolding magnitude
  IsNear-round due got b bs start h = (forth, back)
    where
      here :
          IsNear due got (larger start (magnitude b))
          ↔ (IsNear due got start ⊎ IsNear due got (magnitude b))
      here = IsNear-larger due got start (magnitude b) h (magnitude-IsRat b)

      forth :
          IsNear due got (larger start (magnitude b)) ⊎ NearSome R due got bs
          → IsNear due got start ⊎ NearSome R due got (b ∷ bs)
      forth (inr (c, m, near)) = inr (c, Memᴰ.tail m, near)
      forth (inl near) = elim (here.0 near) [
        | inl near_start ↦ inl near_start
        | inr near_b ↦ inr (b, Memᴰ.head refl, near_b)
      ]

      back :
          IsNear due got start ⊎ NearSome R due got (b ∷ bs)
          → IsNear due got (larger start (magnitude b)) ⊎ NearSome R due got bs
      back (inl near_start) = inl (here.1 (inl near_start))
      back (inr (c, m, near)) = elim (mem_cons-cases m) [
        | inr k ↦ inr (c, k, near)
        | inl same ↦ inl (here.1 (inr (subst (λ x. IsNear due got (magnitude x)) same near)))
      ]

  IsNear-largest :
      (due got : Rat) (bs : List (Balance R.Value)) (start : Rat)
      → IsRat start
      → IsNear due got (largest R start bs) ↔ (IsNear due got start ⊎ NearSome R due got bs)
  unfolding magnitude
  IsNear-largest due got [] start h =
      (inl, λ k. elim k [ inl near ↦ near | inr (b, m, near) ↦ absurd (not_mem_nil m) ])
  IsNear-largest due got (b ∷ bs) start h =
      let (rest, tser) =
        IsNear-largest due got bs (larger start (magnitude b))
          (larger-IsRat start (magnitude b) h (magnitude-IsRat b)) in
      let (forth, back) = IsNear-round due got b bs start h in
      (λ near. forth (rest near), λ k. tser (back k))

  -- The scale of the loop is the largest of the magnitudes of the value and the balances.
  pub IsNear-scale :
      (value total : R.Value) (bs : List (Balance R.Value))
      → let due = R.value_rat value in
        let got = R.value_rat total in
        IsNear due got (larger (largest R zero_rat bs) (rat_abs due))
        ↔ (IsNear due got (rat_abs due) ⊎ NearSome R due got bs)
  IsNear-scale value total bs = (
    λ near. elim (scale.0 near) [
      | inr own ↦ inl own
      | inl of_largest ↦ elim (balances.0 of_largest) [
        | inr some_balance ↦ inr some_balance
        | inl exact ↦
            inl (IsNear-mono due got zero_rat (rat_abs due) (omega arith) (zero-le-abs due) exact)
      ]
    ],
    λ k. elim k [
      | inl own ↦ scale.1 (inr own)
      | inr some_balance ↦ scale.1 (inl (balances.1 (inr some_balance)))
    ],
  )
    where
      due : Rat
      due = R.value_rat value

      got : Rat
      got = R.value_rat total

      balances :
          IsNear due got (largest R zero_rat bs) ↔ (IsNear due got zero_rat ⊎ NearSome R due got bs)
      balances = IsNear-largest due got bs zero_rat (omega arith)

      scale :
          IsNear due got (larger (largest R zero_rat bs) (rat_abs due))
          ↔ (IsNear due got (largest R zero_rat bs) ⊎ IsNear due got (rat_abs due))
      scale =
          IsNear-larger due got (largest R zero_rat bs) (rat_abs due)
            (largest-IsRat bs zero_rat (omega arith)) (rat_abs-IsRat due (L.rat_pos value))
