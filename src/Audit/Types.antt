-- ===== src/Audit/Types.antt =====
-- The data of relayer/audit/audit.go, and what it uses of packages that are not part of the
-- repository.
use tx_xrpl_token_migrator.Base.{ℕ, Option, List, [], ◌∷◌}
use tx_xrpl_token_migrator.Base.Int.{ℤ}
use tx_xrpl_token_migrator.Base.Str.{Str, codes}
use tx_xrpl_token_migrator.Ripple.{Ripple, Account, Currency}
use tx_xrpl_token_migrator.Sdk.{Coin}
use tx_xrpl_token_migrator.Xrpl.Model.{Transaction}
use tx_xrpl_token_migrator.Tx.Contract.Types.{ThresholdBankSendRequest}

-- An attribute of an event, and an event.
pub record Attribute : Type 0 where
  pub key : Str
  pub value : Str

pub record Event : Type 0 where
  pub event_type : Str
  pub attributes : List Attribute

-- A message of a transaction: the payload of an execution of the contract, or another one.
pub data Message : Type 0 where
  execute_contract : Str → Message
  other_message : Message

-- `sdk.TxResponse`: its messages are none where its transaction is not cached.
pub record TxResponse : Type 0 where
  pub tx_hash : Str
  pub events : List Event
  pub messages : Option (List Message)

-- `DiscrepancyType`
pub data DiscrepancyType : Type 0 where
  contract_double_spend contract_sent_amount_mismatch orphan_tx_tx invalid_recipient :
      DiscrepancyType
  not_burning_xrpl_transaction amount_mismatch : DiscrepancyType

-- `KnownDiscrepancies`: the hashes of the known ones, which are all amount mismatches.
abbrev pub known_discrepancies : List Str
known_discrepancies =
    codes "D0B28A44955C37F0E06D2CA63177461B18522639F1EF4E5AC171D2C45F7EA1FB"
    ∷ codes "F3E46D6FB811FAA57B57BA8DB4D345F9620BBAA40CDE2036DADBB24B6DBE66F3"
    ∷ codes "E3CB1679BA5F361F786B0FD2158DF6769C543E4DB3BC98CA4AE2C49F4D4A4BAC"
    ∷ codes "8CC3097C7D10E539488B981C6E314EE5717D5E0BB3764B099A072F4CE8E394C1"
    ∷ codes "21B22F298BF359D43B3CBFB4CC0CEB93CEFC2C43CE889880262F5B2A8A5AEE1A"
    ∷ codes "D28775A1B3F4D17CD4F6CA5639E200B95F770E394558BACFBD91C0668A1BC384"
    ∷ codes "03A8ED4177CCFEA0D72C62FB2AC432C3CB9B29F06F8E0E377BF19270BED1A7E1"
    ∷ codes "269DB1DD2265F0115F92B1FB3865BA803BB29E8906D67A06ADAA66D550B5A107"
    ∷ codes "7FB045596AAC1CCB63D70B7D2688807A79910705F1CA8CE2A525756DBCB56BF8"
    ∷ codes "49E41F712B938FDB35A88555E9E6B172BA3CC5CC87AD9F663A1D9AAC5FF2C459"
    ∷ codes "01984404B349763D7D5A7716D9A85A4F26C359E03A6598C0BE7298CBFAAA4D06"
    ∷ codes "CA6D531A777E7F863A5B4B9A12E30F093043B6D83689FA361D741296E940440F"
    ∷ codes "E4D09529FC126F34A1780E172F1EB4F9FA4BC236EF45B008CF3970E46D820AF8"
    ∷ codes "78AA3733D4E1B906D09CD20CCC09D93979F95EFC8D4289C815A1CE2E06C18AE5"
    ∷ codes "FC17D74D459D201ABD8BB5C2F36335D7A04F6ACFE5C403A13DAAB22D81760DC4"
    ∷ []

-- `Discrepancy`, without its description; an XRPL transaction that is not set is none.
pub record Discrepancy (R : Ripple) : Type 0 where
  pub tx_tx : TxResponse
  pub xrpl_tx : Option (Transaction R)
  pub discrepancy_type : DiscrepancyType

-- `ContractCallTx`
pub record ContractCallTx (T : Type 0) : Type 0 where
  pub tx : TxResponse
  pub msg : Message
  pub payload : T

-- `ContractCallReport`
pub record ContractCallReport : Type 0 where
  pub txs : List TxResponse
  pub threshold_bank_send_requests : List (ContractCallTx ThresholdBankSendRequest)
  pub execute_pending_requests : List (ContractCallTx Str)
  pub update_min_amount_requests : List (ContractCallTx ℤ)
  pub update_max_amount_requests : List (ContractCallTx ℤ)

-- `XRPLTokenConfig`
pub record XrplTokenConfig : Type 0 where
  pub xrpl_issuer : Account
  pub xrpl_currency : Currency
  pub multiplier : Str

-- `AuditorConfig`, without the start date, which the chain client alone reads.
pub record AuditorConfig : Type 0 where
  pub contract_address : Str
  pub tx_denom : Str
  pub tx_decimals : ℕ
  pub xrpl_memo_suffix : Str
  pub xrpl_tokens : List XrplTokenConfig

-- The Cosmos SDK's events and coins, base64 and JSON.
pub record Decoders : Type 0 where
  pub stringify_events : List Event → List Event
  pub parse_coin_normalized : Str → Option Coin
  pub add_coin : List Coin → Coin → List Coin
  pub amount_of : List Coin → Str → ℤ
  pub base64_decode : Str → Option Str
  -- The methods of a call with their payloads; none where the text is no such map.
  pub unmarshal_call : Str → Option (List (Str × Str))
  pub unmarshal_threshold_bank_send : Str → Option ThresholdBankSendRequest
  pub unmarshal_execute_pending : Str → Option Str
  pub unmarshal_update_min_amount : Str → Option ℤ
  pub unmarshal_update_max_amount : Str → Option ℤ
