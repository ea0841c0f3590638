-- ===== src/Audit/Calls.antt =====
-- `analyzeContractCallDiscrepancies` of relayer/audit/audit.go: what the contract sent for a
-- transfer, and transfers that were sent twice.
pub mod Twice
use tx_xrpl_token_migrator.Base.{
  Bool, true, false, not, ◌&&◌, ◌==◌, Option, none, some, List, [], ◌∷◌, ◌++◌, length,
  if◌then◌else◌,
}
use tx_xrpl_token_migrator.Base.Int.{ℤ, pos}
use tx_xrpl_token_migrator.Base.Str.{Str, codes, str_eq}
use tx_xrpl_token_migrator.Base.Go.{Go, ok, err, ◌>>=◌, new_error, or_panic}
use tx_xrpl_token_migrator.Ripple.{Ripple}
use tx_xrpl_token_migrator.Sdk.{Sdk, Coin}
use tx_xrpl_token_migrator.Tx.Contract.Types.{ThresholdBankSendRequest}
use tx_xrpl_token_migrator.Tx.Contract.Pending.{has_id}
use tx_xrpl_token_migrator.Audit.Types.{
  Event, DiscrepancyType, Discrepancy, ContractCallTx, AuditorConfig, Decoders,
}
use tx_xrpl_token_migrator.Audit.Events.{
  sum_coins_events_sibling_attribute_values, convert_from_base64_to_string_attributes,
}

module _ (R : Ripple) (S : Sdk) (D : Decoders) (cfg : AuditorConfig) where
  -- The coins that the contract has sent, by the transfer events.
  unfoldable pub sent_by_contract : List Event → Go (List Coin)
  sent_by_contract events =
      sum_coins_events_sibling_attribute_values D events (codes "transfer") (codes "sender")
        cfg.contract_address (codes "amount")

  -- The same with attributes in base64 where none are found; none at all is an error.
  unfoldable pub sent_coins : List Event → Go (List Coin)
  unfolding sent_by_contract convert_from_base64_to_string_attributes
  sent_coins events = sent_by_contract events >>= λ first.
      (if length first == 0
        then (convert_from_base64_to_string_attributes D events >>= λ decoded.
            sent_by_contract decoded)
        else ok first)
      >>= λ coins.
          if length coins == 0
          then err (new_error (codes "the tx does not contain the sent coins"))
          else ok coins

  abbrev flag : ContractCallTx ThresholdBankSendRequest → DiscrepancyType → Discrepancy R
  flag call t = record { tx_tx = call.tx; xrpl_tx = none; discrepancy_type = t }

  -- A hash that was seen before.
  unfoldable pub twice : ContractCallTx ThresholdBankSendRequest → List Str → List (Discrepancy R)
  unfolding has_id
  twice call found =
      if has_id call.payload.id found
      then flag call DiscrepancyType.contract_double_spend ∷ []
      else []

  -- The comparison of the sent coins with the request.
  unfoldable pub compare_sent :
      ContractCallTx ThresholdBankSendRequest → List Coin → List (Discrepancy R)
  compare_sent call coins =
      if not (length coins == 1)
        && not (
            str_eq (S.int_string (D.amount_of coins cfg.tx_denom))
              (S.coin_string call.payload.amount))
      then flag call DiscrepancyType.contract_sent_amount_mismatch ∷ []
      else []

  -- The loop, with the total so far, which is only logged, and the hashes found so far.
  unfoldable pub analyze_calls :
      List (ContractCallTx ThresholdBankSendRequest) → ℤ → List Str → Go (List (Discrepancy R))
  unfolding sent_coins twice compare_sent
  analyze_calls [] total_bridged found = ok []
  analyze_calls (call ∷ calls) total_bridged found =
      or_panic (S.int_add total_bridged call.payload.amount.amount) >>= λ total.
      sent_coins call.tx.events >>= λ coins.
      analyze_calls calls total (call.payload.id ∷ found) >>= λ more.
      ok (twice call found ++ (compare_sent call coins ++ more))

  -- `analyzeContractCallDiscrepancies`
  unfoldable pub analyze_contract_call_discrepancies :
      List (ContractCallTx ThresholdBankSendRequest) → Go (List (Discrepancy R))
  unfolding analyze_calls
  analyze_contract_call_discrepancies calls = analyze_calls calls (pos 0) []
