-- ===== src/Rat.antt =====
-- `big.Rat` of Go's standard library, as far as the relayer uses it. A value is kept as a fraction
-- that need not be in lowest terms: what the relayer reads from it (comparisons, and the truncated
-- quotient of numerator and denominator) is the same for every fraction of one value.
pub mod Order
use tx_xrpl_token_migrator.Base.{ℕ, ◌*◌, ◌<◌, ◌≡◌, Bool, Option, some}
use tx_xrpl_token_migrator.Base.Str.{Str}
use tx_xrpl_token_migrator.Base.Int.{ℤ, pos, ◌*ℤ◌, ◌-ℤ◌, ltb_ℤ, leb_ℤ, abs, ◌≤ℤ◌}

pub record Rat : Type 0 where
  pub num : ℤ
  pub den : ℕ

-- Every denominator that `big.Rat` gives is positive.
abbrev pub IsRat : Rat → Type 0
IsRat r = 0 < r.den

-- `new(big.Rat)`
abbrev pub zero_rat : Rat
zero_rat = record { num = pos 0; den = 1 }

unfoldable pub rat_mul : Rat → Rat → Rat
rat_mul a b = record { num = a.num *ℤ b.num; den = a.den * b.den }

unfoldable pub rat_sub : Rat → Rat → Rat
rat_sub a b = record { num = a.num *ℤ pos b.den -ℤ b.num *ℤ pos a.den; den = a.den * b.den }

unfoldable pub rat_abs : Rat → Rat
rat_abs a = record { num = pos (abs a.num); den = a.den }

-- `a.Cmp(b) < 0` and `a.Cmp(b) <= 0`
unfoldable pub rat_ltb : Rat → Rat → Bool
rat_ltb a b = ltb_ℤ (a.num *ℤ pos b.den) (b.num *ℤ pos a.den)

unfoldable pub rat_leb : Rat → Rat → Bool
rat_leb a b = leb_ℤ (a.num *ℤ pos b.den) (b.num *ℤ pos a.den)

infix 50 ◌≤ℚ◌
abbrev pub ◌≤ℚ◌ : Rat → Rat → Type 0
a ≤ℚ b = (a.num *ℤ pos b.den) ≤ℤ (b.num *ℤ pos a.den)

-- `big.NewRat(1, 1)`
abbrev pub one_rat : Rat
one_rat = record { num = pos 1; den = 1 }

-- `new(big.Rat).SetString`: the grammar of what it reads is left open, and a result is a fraction.
pub record RatParser : Type 0 where
  pub set_string : Str → Option Rat
  pub set_string_pos : (s : Str) (r : Rat) → set_string s ≡ some r → IsRat r
