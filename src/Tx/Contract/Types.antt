-- ===== src/Tx/Contract/Types.antt =====
-- The requests and responses of relayer/client/tx/contract.go, and the client's configuration.
use tx_xrpl_token_migrator.Base.{ℕ, Option, List}
use tx_xrpl_token_migrator.Base.Int.{ℤ}
use tx_xrpl_token_migrator.Base.Str.{Str}
use tx_xrpl_token_migrator.Sdk.{Address, Coin}

-- `XRPLToken`
pub record XrplToken : Type 0 where
  pub currency : Str
  pub issuer : Str
  pub activation_date : ℕ
  pub multiplier : Str

-- `DeployAndInstantiateConfig`
pub record DeployAndInstantiateConfig : Type 0 where
  pub owner : Str
  pub admin : Str
  pub trusted_addresses : List Str
  pub threshold : ℕ
  pub min_amount : ℤ
  pub max_amount : ℤ
  pub xrpl_tokens : List XrplToken
  pub label : Str

-- `instantiateRequest`
pub record InstantiateRequest : Type 0 where
  pub owner : Str
  pub trusted_addresses : List Str
  pub threshold : ℕ
  pub min_amount : ℤ
  pub max_amount : ℤ
  pub xrpl_tokens : List XrplToken

-- `Config`: the configuration of the contract.
pub record Config : Type 0 where
  pub owner : Str
  pub trusted_addresses : List Str
  pub threshold : ℕ
  pub min_amount : ℤ
  pub max_amount : ℤ
  pub xrpl_tokens : List XrplToken
  pub version : ℕ

-- `ThresholdBankSendRequest`
pub record ThresholdBankSendRequest : Type 0 where
  pub id : Str
  pub amount : Coin
  pub recipient : Str

-- A request to execute: the `ExecMethod` with its payload.
pub data ExecMethod : Type 0 where
  threshold_bank_send : ThresholdBankSendRequest → ExecMethod
  execute_pending : Str → ExecMethod
  update_min_amount : ℤ → ExecMethod
  update_max_amount : ℤ → ExecMethod
  update_trusted_addresses : List Address → ExecMethod
  add_xrpl_tokens : List XrplToken → ExecMethod
  update_owner : Str → ExecMethod

-- `pagingRequest`
pub record PagingRequest : Type 0 where
  pub offset : Option ℕ
  pub limit : Option ℕ

-- A query: the `QueryMethod` with its payload.
pub data QueryMethod : Type 0 where
  get_config : QueryMethod
  get_pending_transaction : Str → QueryMethod
  get_pending_transactions : PagingRequest → QueryMethod
  get_sent_transaction : Str → QueryMethod
  get_sent_transactions : PagingRequest → QueryMethod

-- `Transaction`
pub record Transaction : Type 0 where
  pub amount : Coin
  pub recipient : Str
  pub evidence_providers : List Str

-- `PendingTransaction`
pub record PendingTransaction : Type 0 where
  pub evidence_id : Str
  pub transaction : Transaction

-- `SentTransaction`
pub record SentTransaction : Type 0 where
  pub id : Str
  pub transaction : Transaction

-- `ContractClientConfig`, without the multipliers of gas; a nil address is none.
pub record ContractClientConfig : Type 0 where
  pub contract_address : Option Address
  pub tx_denom : Str
  pub contract_page_size : ℕ

-- `DefaultContractClientConfig`
unfoldable pub default_contract_client_config : Option Address → Str → ContractClientConfig
default_contract_client_config contract_address tx_denom = record {
  contract_address = contract_address;
  tx_denom = tx_denom;
  contract_page_size = 500;
}
