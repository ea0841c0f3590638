-- ===== src/Executor/OnChain.antt =====
-- The executor with the contract client of relayer/client/tx.
use tx_xrpl_token_migrator.Base.{◌≡◌, refl, inl, inr, ◌⊎◌, true, some, [], ◌∷◌}
use tx_xrpl_token_migrator.Base.Str.{Str, codes}
use tx_xrpl_token_migrator.Base.Go.{ok, err, Error, wrap}
use tx_xrpl_token_migrator.Sdk.{Sdk, Address}
use tx_xrpl_token_migrator.Finder.Build.{Pending}
use tx_xrpl_token_migrator.Xrpl.Rpc.Call.{wrap_err}
use tx_xrpl_token_migrator.Tx.Contract.Types.{ContractClientConfig, Config, ExecMethod}
use tx_xrpl_token_migrator.Tx.Contract.Cosmos.{Chain, Msg}
use tx_xrpl_token_migrator.Tx.Contract.Errors.{
  is_error-wrap, is_evidence_provided_error, is_transfer_sent_error,
}
use tx_xrpl_token_migrator.Tx.Contract.Execute.{
  address_or_error, execute_msgs, execute, threshold_bank_send,
}
use tx_xrpl_token_migrator.Tx.Contract.Query.{get_contract_config}
use tx_xrpl_token_migrator.Executor.{client_of, request_of, attempt}
use tx_xrpl_token_migrator.Executor.Attempt.{IsSettled, attempt_ends}

module _ (S : Sdk) (C : Chain) (cfg : ContractClientConfig) (sender : Address) (txn : Pending) where
  -- The message that carries the request of the transfer.
  abbrev pub evidence : Address → Str → Msg
  evidence contract payload =
      Msg.msg_execute_contract (S.address_string sender) (S.address_string contract) payload []

  send_fails :
      (contract : Address) (payload : Str) (e : Error)
      → cfg.contract_address ≡ some contract
      → C.marshal_exec (ExecMethod.threshold_bank_send (request_of S txn)) ≡ ok payload
      → C.broadcast_tx sender (evidence contract payload ∷ []) ≡ err e
      → (client_of S C cfg).send sender (request_of S txn ∷ [])
        ≡ err (wrap (codes "failed to execute threshold_bank_send Method") e)
  unfolding threshold_bank_send execute execute_msgs address_or_error wrap_err
  send_fails contract payload e a m b = rw (a, m, b) refl

  -- The error of the send.
  abbrev wrapped : Error → Error
  wrapped = wrap (codes "failed to execute threshold_bank_send Method")

  still_known :
      (e : Error)
      → (is_evidence_provided_error (some e) ≡ true) ⊎ (is_transfer_sent_error (some e) ≡ true)
      → (is_evidence_provided_error (some (wrapped e)) ≡ true)
        ⊎ (is_transfer_sent_error (some (wrapped e)) ≡ true)
  unfolding is_evidence_provided_error is_transfer_sent_error
  still_known e (inl y) =
      inl (is_error-wrap (codes "failed to execute threshold_bank_send Method") _ e y)
  still_known e (inr y) =
      inr (is_error-wrap (codes "failed to execute threshold_bank_send Method") _ e y)

  -- Where the chain refuses the evidence of a transfer with an error that says that the sender had
  -- provided it before, or that the transfer was sent, the contract client wraps the error, and the
  -- executor still recognises it and ends the retry.
  pub refused_evidence_ends :
      (contract_cfg : Config) (contract : Address) (payload : Str) (e : Error)
      → get_contract_config S C cfg ≡ ok contract_cfg
      → cfg.contract_address ≡ some contract
      → C.marshal_exec (ExecMethod.threshold_bank_send (request_of S txn)) ≡ ok payload
      → C.broadcast_tx sender (evidence contract payload ∷ []) ≡ err e
      → (is_evidence_provided_error (some e) ≡ true) ⊎ (is_transfer_sent_error (some e) ≡ true)
      → (attempt S sender (client_of S C cfg) txn).1 ≡ ok tt
  refused_evidence_ends contract_cfg contract payload e c a m b known =
      (attempt_ends S sender (client_of S C cfg) txn).1 (
        IsSettled.is_known contract_cfg _ c (send_fails contract payload e a m b)
          (still_known e known))
