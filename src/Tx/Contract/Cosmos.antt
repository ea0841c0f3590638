-- ===== src/Tx/Contract/Cosmos.antt =====
-- What the contract client uses of the chain: the packages wasmd, coreum and encoding/json, which
-- are not part of the repository.
use tx_xrpl_token_migrator.Base.{ℕ, Option, List}
use tx_xrpl_token_migrator.Base.Str.{Str}
use tx_xrpl_token_migrator.Base.Go.{Go}
use tx_xrpl_token_migrator.Sdk.{Address, Coin}
use tx_xrpl_token_migrator.Tx.Contract.Types.{
  ExecMethod, QueryMethod, InstantiateRequest, Config, Transaction, PendingTransaction,
  SentTransaction,
}

-- The messages of wasmd.
pub data Msg : Type 0 where
  msg_execute_contract : (sender contract msg : Str) → (funds : List Coin) → Msg
  msg_migrate_contract : (sender contract : Str) → (code_id : ℕ) → (msg : Str) → Msg
  msg_store_code : (sender : Str) → Msg
  msg_instantiate_contract : (sender admin : Str) → (code_id : ℕ) → (label msg : Str) → Msg

-- One call of the chain, and the encodings.
pub record Chain : Type 1 where
  pub TxResponse : Type 0
  -- `client.BroadcastTx` from an address.
  pub broadcast_tx : Address → List Msg → Go TxResponse
  -- `SmartContractState` of a contract's address text and a payload: the response's data.
  pub smart_contract_state : Str → Str → Go Str
  -- The events of a response: the address of a new contract, the id of new code.
  pub find_contract_address : TxResponse → Go Str
  pub find_code_id : TxResponse → Go ℕ
  -- `json.Marshal`
  pub marshal_exec : ExecMethod → Go Str
  pub marshal_query : QueryMethod → Go Str
  pub marshal_instantiate : InstantiateRequest → Go Str
  -- `json.Unmarshal`: none where it fails.
  pub unmarshal_config : Str → Option Config
  pub unmarshal_transaction : Str → Option Transaction
  pub unmarshal_pending : Str → Option (List PendingTransaction)
  pub unmarshal_sent : Str → Option (List SentTransaction)
  -- `sdk.NewCoins` panics (none) on coins that are not valid.
  pub new_coins : List Coin → Option (List Coin)
