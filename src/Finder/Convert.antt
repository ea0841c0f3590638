-- ===== src/Finder/Convert.antt =====
-- `ConvertXRPLAmountToTXAmount` of relayer/finder/finder.go: an amount of the XRPL token, times the
-- token's multiplier, in the smallest units of the TX token.
pub mod Bounds
use tx_xrpl_token_migrator.Base.{ℕ, ◌^◌, ◌==◌, ◌||◌, Option, none, some, length, if◌then◌else◌}
use tx_xrpl_token_migrator.Base.Int.{ℤ, pos, ◌*ℤ◌, eqb_ℤ, quo}
use tx_xrpl_token_migrator.Base.Str.{Str, codes, str_eq}
use tx_xrpl_token_migrator.Base.Go.{Go, ok, or_panic}
use tx_xrpl_token_migrator.Rat.{Rat, RatParser, rat_mul, one_rat}
use tx_xrpl_token_migrator.Ripple.{Ripple}
use tx_xrpl_token_migrator.Sdk.{Sdk}

-- An empty or a zero multiplier text stands for 1.0.
unfoldable pub multiplier_text : Str → Str
multiplier_text multiplier =
    if length multiplier == 0 || str_eq multiplier (codes "0") then codes "1.0" else multiplier

-- So does a text that is read as zero; none where the text cannot be read.
unfoldable pub multiplier_rat : RatParser → Str → Option Rat
unfolding multiplier_text
multiplier_rat P multiplier = elim (P.set_string (multiplier_text multiplier)) [
  | none ↦ none
  | some r ↦ some (if eqb_ℤ r.num (pos 0) then one_rat else r)
]

module _ (R : Ripple) (S : Sdk) (P : RatParser) where
  unfoldable pub convert_xrpl_amount_to_tx_amount : Option R.Value → ℕ → Str → Go ℤ
  convert_xrpl_amount_to_tx_amount none decimals multiplier = ok (pos 0)
  convert_xrpl_amount_to_tx_amount (some v) decimals multiplier =
      elim (multiplier_rat P multiplier) [
        | none ↦ ok (pos 0)
        | some q ↦
            let r = rat_mul (R.value_rat v) q in
            or_panic (S.new_int_from_big_int (quo (pos (10 ^ decimals) *ℤ r.num) r.den))
      ]
