-- ===== src/Sdk.antt =====
-- The Cosmos SDK, which is not part of the repository: addresses, coins and big integers as a
-- parameter, with the documented behaviour that the theorems rely on.
use tx_xrpl_token_migrator.Base.{◌≡◌, ◌<◌, ◌^◌, Option, some}
use tx_xrpl_token_migrator.Base.Str.{Str}
use tx_xrpl_token_migrator.Base.Int.{ℤ, abs}

-- The bytes of an `sdk.AccAddress`.
abbrev pub Address : Type 0
Address = Str

-- `sdk.Coin`
pub record Coin : Type 0 where
  pub denom : Str
  pub amount : ℤ

pub record Sdk : Type 0 where
  pub acc_address_from_bech32 : Str → Option Address
  pub address_string : Address → Str
  -- `sdkmath.NewIntFromBigInt` panics (none) where the value has more than 256 bits.
  pub new_int_from_big_int : ℤ → Option ℤ
  -- `Int.Add` panics (none) where the sum has more than 256 bits.
  pub int_add : ℤ → ℤ → Option ℤ
  -- `sdk.NewCoin` panics (none) on a negative amount or a bad denomination.
  pub new_coin : Str → ℤ → Option Coin
  -- `Coin.String()` and `Int.String()`
  pub coin_string : Coin → Str
  pub int_string : ℤ → Str

pub record SdkLaws (S : Sdk) : Type 0 where
  -- A bech32 text that was printed from an address is read back.
  pub bech32_string : (a : Address) → S.acc_address_from_bech32 (S.address_string a) ≡ some a
  -- Integers keep their value.
  pub int_value : (a b : ℤ) → S.new_int_from_big_int a ≡ some b → b ≡ a
  pub int_fits : (a : ℤ) → abs a < 2 ^ 256 → S.new_int_from_big_int a ≡ some a
  -- A coin has the denomination and the amount that it was made from.
  pub coin_value :
      (d : Str) (a : ℤ) (c : Coin) → S.new_coin d a ≡ some c → c ≡ record { denom = d; amount = a }
