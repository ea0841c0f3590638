-- ===== src/Audit/Compare.antt =====
-- `analyzeXrplToTXDiscrepancies` of relayer/audit/audit.go: the requests to the contract against
-- the XRPL transactions that they name.
pub mod Clean
use tx_xrpl_token_migrator.Base.{
  Bool, true, false, not, ◌&&◌, Option, none, some, List, [], ◌∷◌, ◌++◌, if◌then◌else◌,
}
use tx_xrpl_token_migrator.Base.Str.{Str, codes, str_eq}
use tx_xrpl_token_migrator.Base.Go.{Go, ok, ◌>>=◌}
use tx_xrpl_token_migrator.Rat.{RatParser}
use tx_xrpl_token_migrator.Ripple.{Ripple}
use tx_xrpl_token_migrator.Sdk.{Sdk}
use tx_xrpl_token_migrator.Xrpl.Model.{Transaction}
use tx_xrpl_token_migrator.Finder.Memo.{extract_address_from_memo}
use tx_xrpl_token_migrator.Finder.Convert.{convert_xrpl_amount_to_tx_amount}
use tx_xrpl_token_migrator.Tx.Contract.Types.{ThresholdBankSendRequest}
use tx_xrpl_token_migrator.Audit.Types.{
  DiscrepancyType, Discrepancy, ContractCallTx, XrplTokenConfig, AuditorConfig,
}

module _ (R : Ripple) (S : Sdk) (P : RatParser) (cfg : AuditorConfig) where
  abbrev pub Call : Type 0
  Call = ContractCallTx ThresholdBankSendRequest

  abbrev pub flag : Call → Option (Transaction R) → DiscrepancyType → Discrepancy R
  flag call xrpl_tx t = record { tx_tx = call.tx; xrpl_tx = xrpl_tx; discrepancy_type = t }

  -- The recipient of the request against the address of the memos.
  unfoldable pub check_recipient : Call → Transaction R → List (Discrepancy R)
  check_recipient call xrpl_tx =
      elim (extract_address_from_memo S xrpl_tx.memos cfg.xrpl_memo_suffix) [
        | none ↦ flag call (some xrpl_tx) DiscrepancyType.invalid_recipient ∷ []
        | some a ↦
            if str_eq call.payload.recipient (S.address_string a)
            then []
            else flag call (some xrpl_tx) DiscrepancyType.invalid_recipient ∷ []
      ]

  -- The test of the loop over the tokens.
  unfoldable pub is_token : Transaction R → XrplTokenConfig → Bool
  is_token xrpl_tx token =
      str_eq xrpl_tx.destination (R.account_string token.xrpl_issuer)
      && (str_eq (R.account_string xrpl_tx.delivery_amount.issuer)
            (R.account_string token.xrpl_issuer)
          && str_eq (R.currency_string xrpl_tx.delivery_amount.currency)
              (R.currency_string token.xrpl_currency))

  -- The multiplier of the first token that fits; none where the transaction is not burning.
  unfoldable pub burned_token : Transaction R → List XrplTokenConfig → Option Str
  unfolding is_token
  burned_token xrpl_tx [] = none
  burned_token xrpl_tx (token ∷ tokens) =
      let rest = burned_token xrpl_tx tokens in
      if is_token xrpl_tx token then some token.multiplier else rest

  -- The amount of the request against the converted amount.
  unfoldable pub check_amount : Call → Transaction R → Str → Go (List (Discrepancy R))
  check_amount call xrpl_tx multiplier =
      convert_xrpl_amount_to_tx_amount R S P xrpl_tx.delivery_amount.value cfg.tx_decimals
        multiplier
      >>= λ xrpl_amount. ok (
          if str_eq (S.int_string xrpl_amount) (S.int_string call.payload.amount.amount)
          then []
          else flag call (some xrpl_tx) DiscrepancyType.amount_mismatch ∷ [])

  -- The part on the burned token; a transaction that is not burning has the multiplier 1.0.
  unfoldable pub check_burn : Call → Transaction R → Go (List (Discrepancy R))
  unfolding burned_token check_amount
  check_burn call xrpl_tx = elim (burned_token xrpl_tx cfg.xrpl_tokens) [
    | some multiplier ↦ check_amount call xrpl_tx multiplier
    | none ↦ check_amount call xrpl_tx (codes "1.0") >>= λ more.
        ok (flag call (some xrpl_tx) DiscrepancyType.not_burning_xrpl_transaction ∷ more)
  ]

  -- One round of the loop.
  unfoldable pub compare_call : (Str → Option (Transaction R)) → Call → Go (List (Discrepancy R))
  unfolding check_recipient check_burn
  compare_call xrpl_transactions call = elim (xrpl_transactions call.payload.id) [
    | none ↦ ok (flag call none DiscrepancyType.orphan_tx_tx ∷ [])
    | some xrpl_tx ↦ check_burn call xrpl_tx >>= λ more. ok (check_recipient call xrpl_tx ++ more)
  ]

  -- `analyzeXrplToTXDiscrepancies`
  unfoldable pub analyze_xrpl_to_tx_discrepancies :
      (Str → Option (Transaction R)) → List Call → Go (List (Discrepancy R))
  unfolding compare_call
  analyze_xrpl_to_tx_discrepancies xrpl_transactions [] = ok []
  analyze_xrpl_to_tx_discrepancies xrpl_transactions (call ∷ calls) =
      let rest = analyze_xrpl_to_tx_discrepancies xrpl_transactions calls in
      compare_call xrpl_transactions call >>= λ found. rest >>= λ more. ok (found ++ more)
