-- ===== src/Ripple.antt =====
-- The `rippledata` package (github.com/rubblelabs/ripple/data), which is not part of the
-- repository: its data shapes, its operations as a parameter, and the documented behaviour that
-- the theorems rely on.
use tx_xrpl_token_migrator.Base.{◌↔◌, Bool, Option, List}
use tx_xrpl_token_migrator.Base.Str.{Str}
use tx_xrpl_token_migrator.Base.Int.{ℤ, pos, ◌≤ℤ◌}
use tx_xrpl_token_migrator.Rat.{Rat, IsRat, ◌≤ℚ◌}

-- 20 bytes each.
abbrev pub Account : Type 0
Account = Str

abbrev pub Currency : Type 0
Currency = Str

-- `rippledata.Amount` embeds `*Value`, which may be nil.
pub record Amount (V : Type 0) : Type 0 where
  pub value : Option V
  pub currency : Currency
  pub issuer : Account

-- `rippledata.Balance`
pub record Balance (V : Type 0) : Type 0 where
  pub counter_party : Account
  pub balance : V
  pub change : V
  pub currency : Currency

pub record Ripple : Type 1 where
  pub Value : Type 0
  pub NodeEffects : Type 0
  pub account_string : Account → Str
  pub currency_string : Currency → Str
  -- `Equals` of currencies and accounts.
  pub currency_equals : Currency → Currency → Bool
  pub account_equals : Account → Account → Bool
  pub is_native : Amount Value → Bool
  pub value_rat : Value → Rat
  -- `Add` fails where the sum is out of range.
  pub value_add : Value → Value → Option Value
  pub value_compare : Value → Value → ℤ
  -- `Balances` of a payment with these effects: none on an error, else a map by account, where
  -- none is a missing or nil entry.
  pub balances : NodeEffects → Option (Account → Option (List (Balance Value)))
  pub new_account_from_address : Str → Option Account
  pub new_currency : Str → Option Currency

pub record RippleLaws (R : Ripple) : Type 0 where
  -- The fraction of a value has a positive denominator.
  pub rat_pos : (v : R.Value) → IsRat (R.value_rat v)
  -- `Compare` orders values as the numbers that they stand for.
  pub compare_rat :
      (v w : R.Value) → (pos 0 ≤ℤ R.value_compare v w) ↔ (R.value_rat w ≤ℚ R.value_rat v)
