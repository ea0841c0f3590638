-- ===== src/Audit/Run.antt =====
-- `Audit` of relayer/audit/audit.go.
use tx_xrpl_token_migrator.Base.{Bool, false, not, Option, none, some, List, ◌++◌, map, filter}
use tx_xrpl_token_migrator.Base.Str.{Str}
use tx_xrpl_token_migrator.Base.Go.{Go, ok, ◌>>=◌}
use tx_xrpl_token_migrator.Rat.{RatParser}
use tx_xrpl_token_migrator.Ripple.{Ripple}
use tx_xrpl_token_migrator.Sdk.{Sdk}
use tx_xrpl_token_migrator.Xrpl.Model.{Transaction}
use tx_xrpl_token_migrator.Tx.Contract.Pending.{has_id}
use tx_xrpl_token_migrator.Audit.Types.{
  TxResponse, DiscrepancyType, Discrepancy, AuditorConfig, Decoders, known_discrepancies,
}
use tx_xrpl_token_migrator.Audit.Report.{build_contract_call_report}
use tx_xrpl_token_migrator.Audit.Calls.{analyze_contract_call_discrepancies}
use tx_xrpl_token_migrator.Audit.Compare.{analyze_xrpl_to_tx_discrepancies}

module _ (R : Ripple) (S : Sdk) (P : RatParser) (D : Decoders) (cfg : AuditorConfig) where
  -- The discrepancy is a known one.
  unfoldable pub is_known : Discrepancy R → Bool
  unfolding has_id
  is_known d = elim d.discrepancy_type [
    | DiscrepancyType.amount_mismatch ↦ elim d.xrpl_tx [
      | none ↦ false
      | some t ↦ has_id t.hash known_discrepancies
    ]
    | _ ↦ false
  ]

  -- `Audit`, with the answers of the chain client and of the XRPL client to the hashes.
  unfoldable pub audit :
      Go (List TxResponse)
      → (List Str → Go (Str → Option (Transaction R)))
      → Go (List (Discrepancy R))
  unfolding is_known
  audit spending get_transactions = build_contract_call_report D spending >>= λ report.
      analyze_contract_call_discrepancies R S D cfg report.threshold_bank_send_requests >>= λ first.
      get_transactions (map (λ call. call.payload.id) report.threshold_bank_send_requests)
      >>= λ xrpl_txs.
          analyze_xrpl_to_tx_discrepancies R S P cfg xrpl_txs report.threshold_bank_send_requests
          >>= λ second. ok (filter (λ d. not (is_known d)) (first ++ second))
