-- ===== src/Rat/Order.antt =====
-- The order of fractions with positive denominators.
use native.Mathlib.Nat.{le_of_mul-le-mul_right, mul-le-mul_right}
use tx_xrpl_token_migrator.Base.{ℕ, ◌+◌, ◌*◌, ◌≤◌, ◌≡◌, ap, arith}
use tx_xrpl_token_migrator.Base.Int.{ℤ, pos, pos_part, neg_part, ◌*ℤ◌}
use tx_xrpl_token_migrator.Rat.{Rat, IsRat, rat_mul, ◌≤ℚ◌}

*ℤ_pos_parts :
    (a : ℤ) (n : ℕ)
    → pos_part (a *ℤ pos n) + neg_part a * n ≡ neg_part (a *ℤ pos n) + pos_part a * n
unfolding ◌*ℤ◌
*ℤ_pos_parts a n = ground arith

-- The cross products, as natural numbers.
≤ℚ_parts :
    (x y : Rat)
    → x ≤ℚ y
    → pos_part x.num * y.den + neg_part y.num * x.den
      ≤ pos_part y.num * x.den + neg_part x.num * y.den
≤ℚ_parts x y h = omega (arith, *ℤ_pos_parts x.num y.den, *ℤ_pos_parts y.num x.den)

≤ℚ_of_parts :
    (x y : Rat)
    → pos_part x.num * y.den + neg_part y.num * x.den
      ≤ pos_part y.num * x.den + neg_part x.num * y.den
    → x ≤ℚ y
≤ℚ_of_parts x y h = omega (arith, *ℤ_pos_parts x.num y.den, *ℤ_pos_parts y.num x.den)

pub ≤ℚ-trans : (x y z : Rat) → IsRat y → x ≤ℚ y → y ≤ℚ z → x ≤ℚ z
≤ℚ-trans x y z positive h k = ≤ℚ_of_parts x z (le_of_mul-le-mul_right scaled positive)
  where
    scaled :
        (pos_part x.num * z.den + neg_part z.num * x.den) * y.den
        ≤ (pos_part z.num * x.den + neg_part x.num * z.den) * y.den
    scaled =
        omega
          (arith, mul-le-mul_right z.den (≤ℚ_parts x y h), mul-le-mul_right x.den (≤ℚ_parts y z k))

-- A product with a fraction that is not negative keeps the order.
pub rat_mul-mono_left :
    (a b : Rat) (p q : ℕ)
    → a ≤ℚ b
    → rat_mul a (record { num = pos p; den = q }) ≤ℚ rat_mul b (record { num = pos p; den = q })
unfolding rat_mul
rat_mul-mono_left a b p q h = ≤ℚ_of_parts _ _ scaled
  where
    scaled :
        pos_part (a.num *ℤ pos p) * (b.den * q) + neg_part (b.num *ℤ pos p) * (a.den * q)
        ≤ pos_part (b.num *ℤ pos p) * (a.den * q) + neg_part (a.num *ℤ pos p) * (b.den * q)
    scaled = omega (
      arith,
      mul-le-mul_right (p * q) (≤ℚ_parts a b h),
      ap (λ n. n * (b.den * q)) (*ℤ_pos_parts a.num p),
      ap (λ n. n * (a.den * q)) (*ℤ_pos_parts b.num p),
    )
