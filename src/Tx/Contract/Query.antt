-- ===== src/Tx/Contract/Query.antt =====
-- The queries of relayer/client/tx/contract.go.
use tx_xrpl_token_migrator.Base.{ℕ, Option, none, some, List}
use tx_xrpl_token_migrator.Base.Str.{Str, codes}
use tx_xrpl_token_migrator.Base.Go.{Go, ok, err, ◌>>=◌, new_error}
use tx_xrpl_token_migrator.Sdk.{Sdk}
use tx_xrpl_token_migrator.Xrpl.Rpc.Call.{wrap_err}
use tx_xrpl_token_migrator.Tx.Contract.Types.{
  ContractClientConfig, QueryMethod, Config, Transaction, PendingTransaction, SentTransaction,
}
use tx_xrpl_token_migrator.Tx.Contract.Cosmos.{Chain}
use tx_xrpl_token_migrator.Tx.Contract.Execute.{address_or_error}

module _ (S : Sdk) (C : Chain) (cfg : ContractClientConfig) where
  -- `query`
  unfoldable pub query : {A : Type 0} → QueryMethod → (Str → Option A) → Go A
  unfolding wrap_err address_or_error
  query request unmarshal = address_or_error S C cfg >>= λ contract.
      wrap_err (codes "can't marshal query request") (C.marshal_query request) >>= λ payload.
      wrap_err (codes "query failed") (C.smart_contract_state (S.address_string contract) payload)
      >>= λ resp_data. elim (unmarshal resp_data) [
        | none ↦ err (new_error (codes "can't unmarshal wasm contract response"))
        | some response ↦ ok response
      ]

  -- `GetContractConfig`
  unfoldable pub get_contract_config : Go Config
  unfolding query wrap_err
  get_contract_config =
      wrap_err (codes "failed to query get_config")
        (query QueryMethod.get_config C.unmarshal_config)

  -- `GetPendingTx`
  unfoldable pub get_pending_tx : Str → Go Transaction
  unfolding query wrap_err
  get_pending_tx evidence_id =
      wrap_err (codes "failed to query get_pending_transaction")
        (query (QueryMethod.get_pending_transaction evidence_id) C.unmarshal_transaction)

  -- `GetPendingTxs`
  unfoldable pub get_pending_txs : Option ℕ → Option ℕ → Go (List PendingTransaction)
  unfolding query wrap_err
  get_pending_txs offset limit = wrap_err (codes "failed to query get_pending_transactions") (
      query (QueryMethod.get_pending_transactions (record { offset = offset; limit = limit }))
        C.unmarshal_pending)

  -- `GetSentTx`
  unfoldable pub get_sent_tx : Str → Go Transaction
  unfolding query wrap_err
  get_sent_tx id =
      wrap_err (codes "failed to query get_sent_transaction")
        (query (QueryMethod.get_sent_transaction id) C.unmarshal_transaction)

  -- `GetSentTxs`
  unfoldable pub get_sent_txs : Option ℕ → Option ℕ → Go (List SentTransaction)
  unfolding query wrap_err
  get_sent_txs offset limit = wrap_err (codes "failed to query get_sent_transactions") (
      query (QueryMethod.get_sent_transactions (record { offset = offset; limit = limit }))
        C.unmarshal_sent)
