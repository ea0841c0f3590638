-- ===== src/Tests/Samples.antt =====
-- Concrete stand-ins for what is not part of the repository, and sample data.
use tx_xrpl_token_migrator.Base.{
  ◌^◌, ◌≡◌, refl, ◌↔◌, Option, none, some, List, [], ◌∷◌, arith, ltb, ◌==◌, length, if◌then◌else◌,
}
use tx_xrpl_token_migrator.Base.Int.{ℤ, pos, negsuc, ◌+ℤ◌, ◌-ℤ◌, ◌*ℤ◌, ◌≤ℤ◌, ltb_ℤ, abs}
use tx_xrpl_token_migrator.Base.Str.{Str, codes, str_eq}
use tx_xrpl_token_migrator.Rat.{Rat, RatParser, one_rat, zero_rat, IsRat}
use tx_xrpl_token_migrator.Ripple.{Ripple, RippleLaws, Account, Balance}
use tx_xrpl_token_migrator.Sdk.{Sdk, SdkLaws}

-- Values are whole numbers, and an amount with no currency is native.
abbrev pub ripple : Ripple
ripple = record {
  Value = ℤ;
  NodeEffects = Option (Account → Option (List (Balance ℤ)));
  account_string = λ a. a;
  currency_string = λ c. c;
  currency_equals = str_eq;
  account_equals = str_eq;
  is_native = λ a. length a.currency == 0;
  value_rat = λ v. record { num = v; den = 1 };
  value_add = λ v w. some (v +ℤ w);
  value_compare = λ v w. v -ℤ w;
  balances = λ n. n;
  new_account_from_address = λ s. if length s == 0 then none else some s;
  new_currency = λ s. if length s == 0 then none else some s;
}

compare_sample : (v w : ℤ) → (pos 0 ≤ℤ v -ℤ w) ↔ (w *ℤ pos 1 ≤ℤ v *ℤ pos 1)
unfolding ◌-ℤ◌ ◌*ℤ◌
compare_sample v w = (λ h. ground arith, λ h. ground arith)

pub ripple_laws : RippleLaws ripple
ripple_laws = record { rat_pos = λ v. omega arith; compare_rat = compare_sample }

-- An address text is a `t` and the address.
abbrev pub parse_address : Str → Option Str
parse_address [] = none
parse_address (c ∷ s) = if c == b't' then some s else none

abbrev pub print_int : ℤ → Str
print_int (pos n) = n ∷ []
print_int (negsuc n) = b'-' ∷ n ∷ []

abbrev pub sdk : Sdk
sdk = record {
  acc_address_from_bech32 = parse_address;
  address_string = λ a. b't' ∷ a;
  new_int_from_big_int = λ a. if ltb (abs a) (2 ^ 256) then some a else none;
  int_add = λ a b. if ltb (abs (a +ℤ b)) (2 ^ 256) then some (a +ℤ b) else none;
  new_coin = λ d a. if ltb_ℤ a (pos 0) then none else some (record { denom = d; amount = a });
  coin_string = λ c. print_int c.amount;
  int_string = print_int;
}

pub sdk_laws : SdkLaws sdk
sdk_laws = record {
  bech32_string = λ a. refl;
  int_value = λ a b h. ground arith;
  int_fits = λ a h. ground arith;
  coin_value = λ d a c h. ground arith;
}

-- The multiplier texts 1.0, 1.5 and 0.0 are read.
abbrev pub read_rat : Str → Option Rat
read_rat s =
    if str_eq s (codes "1.0")
    then some one_rat
    else if str_eq s (codes "1.5")
    then some (record { num = pos 3; den = 2 })
    else if str_eq s (codes "0.0")
    then some zero_rat
    else none

pub read_rat_pos : (s : Str) (r : Rat) → read_rat s ≡ some r → IsRat r
read_rat_pos s r h = ground arith

abbrev pub parser : RatParser
parser = record { set_string = read_rat; set_string_pos = read_rat_pos }
