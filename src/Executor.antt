-- ===== src/Executor.antt =====
-- relayer/executor/executor.go: each pending transfer is submitted to the contract as evidence,
-- again and again until there is no need to.
pub mod Attempt
pub mod Sends
pub mod Settles
pub mod OnChain
use tx_xrpl_token_migrator.Base.{
  Bool, true, false, Option, none, some, List, [], ◌∷◌, ◌++◌, if◌then◌else◌,
}
use tx_xrpl_token_migrator.Base.Int.{ℤ, ltb_ℤ}
use tx_xrpl_token_migrator.Base.Go.{Go, ok, err, panics, ◌>>=◌, Cause}
use tx_xrpl_token_migrator.Sdk.{Sdk, Address}
use tx_xrpl_token_migrator.Finder.Build.{Pending}
use tx_xrpl_token_migrator.Tx.Contract.Types.{
  ContractClientConfig, Config, ThresholdBankSendRequest,
}
use tx_xrpl_token_migrator.Tx.Contract.Cosmos.{Chain}
use tx_xrpl_token_migrator.Tx.Contract.Execute.{threshold_bank_send}
use tx_xrpl_token_migrator.Tx.Contract.Query.{get_contract_config}
use tx_xrpl_token_migrator.Tx.Contract.Errors.{is_evidence_provided_error, is_transfer_sent_error}
use tx_xrpl_token_migrator.Xrpl.Scanner.{Ending}

-- The interface `ContractClient`; the response of a sent transaction is not read.
pub record ContractClient : Type 0 where
  pub send : Address → List ThresholdBankSendRequest → Go (Unit {0})
  pub contract_config : Go Config

-- The contract client of relayer/client/tx as that interface.
abbrev pub client_of : Sdk → Chain → ContractClientConfig → ContractClient
client_of S C cfg = record {
  send = λ sender requests. threshold_bank_send S C cfg sender requests >>= λ _. ok tt;
  contract_config = get_contract_config S C cfg;
}

-- A request that has been sent, with the least amount of the configuration read before it.
pub record Submitted : Type 0 where
  pub min_amount : ℤ
  pub request : ThresholdBankSendRequest

-- One round of the retry: the client, and the error of the context if it is done in the wait
-- after the round.
pub record Round : Type 0 where
  pub client : ContractClient
  pub done : Option Cause

-- What the `select` of the loop takes: the end of the context, or a transaction, with the rounds
-- of its retry.
pub data Event : Type 0 where
  stop : Event
  receive : Pending → List Round → Event

abbrev pub after_round : Cause → Ending
after_round Cause.canceled = Ending.canceled
after_round _ = Ending.crashed

-- `sendReq`
unfoldable pub request_of : Sdk → Pending → ThresholdBankSendRequest
request_of S txn = record {
  id = txn.xrpl_tx_hash;
  amount = txn.tx_amount;
  recipient = S.address_string txn.tx_destination;
}

-- What is done with the result of the send: an error is the retryable one.
unfoldable pub after_send : Go (Unit {0}) → Go (Unit {0})
after_send (ok u) = ok u
after_send (err e) =
    if is_evidence_provided_error (some e)
    then ok tt
    else if is_transfer_sent_error (some e)
    then ok tt
    else err e
after_send panics = panics

module _ (S : Sdk) (sender_address : Address) where
  -- The function that is retried, with what it has sent.
  unfoldable pub attempt : ContractClient → Pending → List Submitted × Go (Unit {0})
  unfolding request_of after_send
  attempt client txn = elim client.contract_config [
    | err e ↦ ([], err e)
    | panics ↦ ([], panics)
    | ok contract_cfg ↦
        if ltb_ℤ txn.tx_amount.amount contract_cfg.min_amount then ([], ok tt) else (
          record { min_amount = contract_cfg.min_amount; request = request_of S txn } ∷ [],
          after_send (client.send sender_address (request_of S txn ∷ [])),
        )
  ]

  -- `retry.Do` of coreum-tools: it repeats a retryable error, unless the context is done.
  unfoldable pub retry_transaction : Pending → List Round → List Submitted → List Submitted × Ending
  retry_transaction txn [] trace = (trace, Ending.waiting)
  retry_transaction txn (round ∷ rounds) trace =
      let (sent, result) = attempt round.client txn in
      let rest = retry_transaction txn rounds (trace ++ sent) in
      elim result [
        | ok _ ↦ (trace ++ sent, Ending.finished)
        | panics ↦ (trace ++ sent, Ending.crashed)
        | err _ ↦ elim round.done [ none ↦ rest | some cause ↦ (trace ++ sent, after_round cause) ]
      ]

  -- The loop of `Start`; the end of the context ends it.
  unfoldable pub start : List Event → List Submitted → List Submitted × Ending
  unfolding retry_transaction
  start [] trace = (trace, Ending.waiting)
  start (Event.stop ∷ events) trace = (trace, Ending.finished)
  start (Event.receive txn rounds ∷ events) trace =
      let (trace', ending) = retry_transaction txn rounds trace in
      let rest = start events trace' in
      elim ending [
        | Ending.waiting ↦ (trace', Ending.waiting)
        | Ending.finished ↦ rest
        | Ending.canceled ↦ rest
        | Ending.crashed ↦ (trace', Ending.crashed)
      ]
