-- ===== src/Audit/Report.antt =====
-- The report of contract calls of relayer/audit/audit.go.
use tx_xrpl_token_migrator.Base.{Option, none, some, List, [], ◌∷◌, ◌++◌, if◌then◌else◌}
use tx_xrpl_token_migrator.Base.Str.{Str, codes, str_eq}
use tx_xrpl_token_migrator.Base.Go.{Go, ok, err, ◌>>=◌, new_error}
use tx_xrpl_token_migrator.Xrpl.Rpc.Call.{wrap_err}
use tx_xrpl_token_migrator.Audit.Types.{Message, TxResponse, ContractCallReport, Decoders}

-- `NewContractCallReport`
unfoldable pub new_contract_call_report : ContractCallReport
new_contract_call_report = record {
  txs = [];
  threshold_bank_send_requests = [];
  execute_pending_requests = [];
  update_min_amount_requests = [];
  update_max_amount_requests = [];
}

-- An `json.Unmarshal` of a payload.
unfoldable pub unmarshal_payload : {T : Type 0} → (Str → Option T) → Str → Go T
unmarshal_payload unmarshal payload = elim (unmarshal payload) [
  | none ↦ err (new_error (codes "json"))
  | some req ↦ ok req
]

module _ (D : Decoders) where
  -- One case of the `switch` over the methods.
  unfoldable pub decode_method :
      TxResponse → Message → Str → Str → ContractCallReport → Go ContractCallReport
  unfolding unmarshal_payload
  decode_method tx msg method_name payload report =
      if str_eq method_name (codes "threshold_bank_send")
      then (unmarshal_payload D.unmarshal_threshold_bank_send payload >>= λ req. ok (record report {
        threshold_bank_send_requests =
            report.threshold_bank_send_requests
            ++ record { tx = tx; msg = msg; payload = req } ∷ [];
      }))
      else if str_eq method_name (codes "execute_pending")
      then (unmarshal_payload D.unmarshal_execute_pending payload >>= λ req. ok (record report {
        execute_pending_requests =
            report.execute_pending_requests ++ record { tx = tx; msg = msg; payload = req } ∷ [];
      }))
      else if str_eq method_name (codes "update_min_amount")
      then (unmarshal_payload D.unmarshal_update_min_amount payload >>= λ req. ok (record report {
        update_min_amount_requests =
            report.update_min_amount_requests ++ record { tx = tx; msg = msg; payload = req } ∷ [];
      }))
      else if str_eq method_name (codes "update_max_amount")
      then (unmarshal_payload D.unmarshal_update_max_amount payload >>= λ req. ok (record report {
        update_max_amount_requests =
            report.update_max_amount_requests ++ record { tx = tx; msg = msg; payload = req } ∷ [];
      }))
      else err (new_error (codes "exec method not found, method:" ++ method_name))

  -- The loop over the methods of a payload.
  unfoldable pub decode_methods :
      TxResponse → Message → List (Str × Str) → ContractCallReport → Go ContractCallReport
  unfolding decode_method
  decode_methods tx msg [] report = ok report
  decode_methods tx msg ((method_name, payload) ∷ call) report =
      decode_method tx msg method_name payload report >>= λ r. decode_methods tx msg call r

  -- `decodeMessagePayloadToReport`
  unfoldable pub decode_message_payload_to_report :
      TxResponse → Message → ContractCallReport → Go ContractCallReport
  unfolding decode_methods
  decode_message_payload_to_report tx msg report = elim msg [
    | Message.other_message ↦ err (new_error (codes "unexpected message type for the message"))
    | Message.execute_contract payload ↦ elim (D.unmarshal_call payload) [
      | none ↦ err (new_error (codes "failed to decode contract payload to map"))
      | some call ↦ decode_methods tx (Message.execute_contract payload) call report
    ]
  ]

  -- The loop over the messages of a transaction.
  unfoldable pub decode_messages :
      TxResponse → List Message → ContractCallReport → Go ContractCallReport
  unfolding wrap_err decode_message_payload_to_report
  decode_messages tx [] report = ok report
  decode_messages tx (msg ∷ msgs) report =
      wrap_err (codes "failed to decode transaction")
        (decode_message_payload_to_report tx msg report)
      >>= λ r. decode_messages tx msgs r

  -- The loop of `buildContractCallReport`.
  unfoldable pub report_of : List TxResponse → ContractCallReport → Go ContractCallReport
  unfolding decode_messages
  report_of [] report = ok report
  report_of (tx ∷ txs) report = elim tx.messages [
    | none ↦ err (new_error (codes "failed to get cached tx value"))
    | some msgs ↦
        decode_messages tx msgs report >>= λ r. report_of txs (record r { txs = r.txs ++ tx ∷ [] })
  ]

  -- `buildContractCallReport`, with the answer of the chain client.
  unfoldable pub build_contract_call_report : Go (List TxResponse) → Go ContractCallReport
  unfolding report_of new_contract_call_report
  build_contract_call_report spending = spending >>= λ txs. report_of txs new_contract_call_report
