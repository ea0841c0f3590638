-- ===== src/Cli/Token/Digits.antt =====
-- `strconv.ParseUint` accepts exactly the decimal texts of numbers below 2 ^ 64.
use tx_xrpl_token_migrator.Base.{
  ℕ, ◌+◌, ◌-◌, ◌*◌, ◌^◌, ◌≤◌, ◌<◌, ◌≡◌, ◌≢◌, refl, ap, sym, ◌∙◌, ◌↔◌, [], ◌∷◌, All, length, arith,
}
use native.Mathlib.Nat.{add-mul, mul_assoc, pow-succ', le-mul_of_pos_right, one-le-pow}
use tx_xrpl_token_migrator.Base.Str.{Str}
use tx_xrpl_token_migrator.Base.Go.{ok, ok_injective}
use tx_xrpl_token_migrator.Cli.Token.{parse_digits, parse_uint}

-- The bytes of '0' to '9'.
abbrev pub IsDigit : ℕ → Type 0
IsDigit x = (48 ≤ x) × (x ≤ 57)

-- The number with the digits.
abbrev pub value : Str → ℕ
value [] = 0
value (x ∷ s) = (x - 48) * 10 ^ length s + value s

pub record IsDecimal (s : Str) (n : ℕ) : Type 0 where
  pub some_digit : s ≢ []
  pub digits : All IsDigit s
  pub valued : value s ≡ n
  pub fits : n < 2 ^ 64

module _ (n x : ℕ) (s : Str) where
  step_value :
      (n * 10 + (x - 48)) * 10 ^ length s + value s ≡ n * 10 ^ length (x ∷ s) + value (x ∷ s)
  step_value =
      let p = 10 ^ length s in
      let d = x - 48 in
      let whole : (n * 10 + d) * p ≡ n * 10 * p + d * p = add-mul (n * 10) d p in
      let moved : n * 10 * p ≡ n * (10 * p) = mul_assoc n 10 p in
      let power : 10 ^ length (x ∷ s) ≡ 10 * p = pow-succ' 10 (length s) in
      let scaled : n * 10 ^ length (x ∷ s) ≡ n * (10 * p) = ap (λ q. n * q) power in omega arith

  parse_step :
      IsDigit x
      → n * 10 + (x - 48) < 2 ^ 64
      → parse_digits n (x ∷ s) ≡ parse_digits (n * 10 + (x - 48)) s
  unfolding parse_digits
  parse_step d h = ground arith

  parse_gives :
      (v : ℕ)
      → parse_digits n (x ∷ s) ≡ ok v
      → IsDigit x × (n * 10 + (x - 48) < 2 ^ 64) × (parse_digits (n * 10 + (x - 48)) s ≡ ok v)
  unfolding parse_digits
  parse_gives v h = ground arith

digits_iff :
    (n : ℕ) (s : Str) (v : ℕ)
    → n < 2 ^ 64
    → (parse_digits n s ≡ ok v) ↔ (All IsDigit s × (n * 10 ^ length s + value s ≡ v) × (v < 2 ^ 64))
unfolding parse_digits
digits_iff n [] v h = (
  λ e. let same = ok_injective e in (tt, omega arith, omega arith),
  λ r. ap ok (omega (arith, r.1)),
)
digits_iff n (x ∷ s) v h = (
  λ e.
      let (d, fits, e') = parse_gives n x s v e in
      let (ds, same, small) = (digits_iff _ s v fits).0 e' in
      ((d, ds), sym (step_value n x s) ∙ same, small),
  λ r.
      let next = n * 10 + (x - 48) in
      let same : next * 10 ^ length s + value s ≡ v = step_value n x s ∙ r.1 in
      let grows : next ≤ next * 10 ^ length s =
        le-mul_of_pos_right next (one-le-pow (length s) 10 (omega arith)) in
      let fits : next < 2 ^ 64 = omega arith in
      parse_step n x s r.0.0 fits ∙ (digits_iff next s v fits).1 (r.0.1, same, r.2),
)

pub parse_uint_iff : (s : Str) (n : ℕ) → (parse_uint s ≡ ok n) ↔ IsDecimal s n
unfolding parse_uint
parse_uint_iff [] n = (λ h. cc, λ r. absurd (r.some_digit refl))
parse_uint_iff (x ∷ s) n = (
  λ h.
      let (ds, same, small) = (digits_iff 0 (x ∷ s) n (omega arith)).0 h in
      record { some_digit = λ e. cc; digits = ds; valued = omega arith; fits = small },
  λ r. (digits_iff 0 (x ∷ s) n (omega arith)).1 (r.digits, omega (arith, r.valued), r.fits),
)
