-- ===== src/Xrpl/Rpc/Submit.antt =====
-- The calls of relayer/client/xrpl/rpc.go that fill, submit and await a transaction of the XRPL.
pub mod Fee
pub mod Await
use tx_xrpl_token_migrator.Base.{
  ℕ, ◌+◌, ◌*◌, ◌%◌, ◌^◌, ◌==◌, Bool, true, not, Option, none, some, List, [], ◌∷◌, if◌then◌else◌,
}
use tx_xrpl_token_migrator.Base.Int.{ℤ, pos}
use tx_xrpl_token_migrator.Base.Str.{Str, codes}
use tx_xrpl_token_migrator.Base.Go.{Go, ok, err, panics, ◌>>=◌, Cause, new_error, or_panic}
use tx_xrpl_token_migrator.Ripple.{Ripple, Account}
use tx_xrpl_token_migrator.Xrpl.Model.{Transaction}
use tx_xrpl_token_migrator.Xrpl.Rpc.Types.{RpcReq, Node}
use tx_xrpl_token_migrator.Xrpl.Rpc.Call.{call_rpc, get_transaction, to_upper, wrap_err}

-- `AccountInfoResult`, with the sequence of `rippledata.AccountRoot`, which is a pointer.
pub record AccountInfoResult : Type 0 where
  pub ledger_sequence : ℕ
  pub sequence : Option ℕ

-- `SubmitResult`, without the transaction that is sent back. The engine's result is a
-- `rippledata.TransactionResult`.
pub record SubmitResult : Type 0 where
  pub engine_result : ℤ
  pub engine_result_message : Str
  pub tx_blob : Str

-- `rippledata.TxBase`, as far as it is filled here.
pub record TxBase (R : Ripple) : Type 0 where
  pub fee : Option R.Value
  pub account : Account
  pub sequence : ℕ

-- The transactions of rippledata, which are not part of the repository, and their JSON.
pub record TxCodec (R : Ripple) : Type 1 where
  pub Tx : Type 0
  pub get_base : Tx → TxBase R
  pub set_base : Tx → TxBase R → Tx
  -- `Raw` with the bytes printed by `%X`, none on an error.
  pub raw_hex : Tx → Option Str
  pub hash_string : Tx → Str
  pub new_native_value : ℤ → Go R.Value
  -- `TransactionResult.Success`
  pub is_success : ℤ → Bool
  pub decode_account_info : Str → Option AccountInfoResult
  pub decode_submit : Str → Option SubmitResult

-- `DefaultXRPLBaseFee`
abbrev pub default_xrpl_base_fee : ℕ
default_xrpl_base_fee = 10

module _ (R : Ripple) (T : TxCodec R) where
  -- `calculateFee`: its numbers are of type uint32.
  unfoldable pub calculate_fee : ℕ → ℕ → Go R.Value
  calculate_fee tx_signature_count base_fee =
      if tx_signature_count == 0
      then err (new_error (codes "tx signature count must be greater than 0"))
      else if tx_signature_count == 1
      then T.new_native_value (pos base_fee)
      else T.new_native_value (pos (base_fee * ((1 + tx_signature_count) % 2 ^ 32) % 2 ^ 32))

  -- `AccountInfo`
  unfoldable pub account_info : Node R → Account → Go AccountInfoResult
  account_info node acc = call_rpc R node T.decode_account_info (RpcReq.account_info acc true)

  -- The assignments of `AutoFillTx`: the fee and the account are set before the pointer to the
  -- sequence is read.
  unfoldable pub fill_base : T.Tx → R.Value → Account → AccountInfoResult → T.Tx × Go (Unit {0})
  fill_base txn fee sender info =
      let base = record (T.get_base txn) { fee = some fee; account = sender } in
      elim info.sequence [
        | none ↦ (T.set_base txn base, panics)
        | some sequence ↦ (T.set_base txn (record base { sequence = sequence }), ok tt)
      ]

  -- `AutoFillTx`: the transaction is changed in place.
  unfoldable pub auto_fill_tx : Node R → T.Tx → Account → ℕ → T.Tx × Go (Unit {0})
  unfolding fill_base
  auto_fill_tx node txn sender tx_signature_count = elim (account_info node sender) [
    | err e ↦ (txn, err e)
    | panics ↦ (txn, panics)
    | ok info ↦ elim (calculate_fee tx_signature_count default_xrpl_base_fee) [
      | err e ↦ (txn, err e)
      | panics ↦ (txn, panics)
      | ok fee ↦ fill_base txn fee sender info
    ]
  ]

  -- `Submit`
  unfoldable pub submit : Node R → T.Tx → Go SubmitResult
  submit node txn = elim (T.raw_hex txn) [
    | none ↦ err (new_error (codes "failed to convert transaction to raw data"))
    | some tx_blob ↦ call_rpc R node T.decode_submit (RpcReq.submit tx_blob)
  ]

  -- The function that is retried: an error is the retryable one.
  unfoldable pub await_round : Node R → Str → Go (Unit {0})
  await_round node hash = get_transaction R node hash >>= λ (tx_res, valid).
      if not valid
      then err (new_error (codes "transaction is not valid"))
      else if not tx_res.validated
      then err (new_error (codes "transaction is not validated"))
      else ok tt

  -- `retry.Do` of coreum-tools, which repeats a retryable error, with the error of the context if
  -- it is done in the wait after a round. None as long as it has not returned.
  unfoldable pub await : Str → List (Node R × Option Cause) → Option (Go (Unit {0}))
  await hash [] = none
  await hash ((node, done) ∷ rounds) =
      let rest = await hash rounds in
      elim (await_round node hash) [
        | ok _ ↦ some (ok tt)
        | panics ↦ some panics
        | err _ ↦ elim done [
          | none ↦ rest
          | some cause ↦ some (err (record { message = codes "context is done"; cause = cause }))
        ]
      ]

  -- `SubmitAndAwaitSuccess`
  unfoldable pub submit_and_await_success :
      Node R → T.Tx → List (Node R × Option Cause) → Option (Go (Unit {0}))
  submit_and_await_success node txn rounds = elim (submit node txn) [
    | err e ↦ some (err e)
    | panics ↦ some panics
    | ok res ↦
        if not (T.is_success res.engine_result)
        then some (err (new_error (codes "the tx submition is failed")))
        else await (T.hash_string txn) rounds
  ]
