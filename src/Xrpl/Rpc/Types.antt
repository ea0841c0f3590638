-- ===== src/Xrpl/Rpc/Types.antt =====
-- The request and response objects of relayer/client/xrpl/rpc.go.
use tx_xrpl_token_migrator.Base.{ℕ, Bool, Option, List}
use tx_xrpl_token_migrator.Base.Int.{ℤ}
use tx_xrpl_token_migrator.Base.Str.{Str}
use tx_xrpl_token_migrator.Base.Go.{Go, Cause}
use tx_xrpl_token_migrator.Ripple.{Ripple, Amount, Account}

-- `pageMarker` and `PageMarker`
pub record PageMarker : Type 0 where
  pub ledger : ℤ
  pub seq : ℤ

-- `accountTxReq`
pub record AccountTxReq : Type 0 where
  pub account : Str
  pub binary : Bool
  pub forward : Bool
  pub ledger_index_min : ℤ
  pub ledger_index_max : ℤ
  pub limit : ℕ
  pub marker : Option PageMarker

-- `txReq`
pub record TxReq : Type 0 where
  pub hash : Str
  pub binary : Bool

-- `rpcReq`: the method with its parameters.
pub data RpcReq : Type 0 where
  account_tx : AccountTxReq → RpcReq
  ledger_current : RpcReq
  tx : TxReq → RpcReq
  account_info : Account → Bool → RpcReq
  submit : Str → RpcReq

-- `rpcErrResult`
pub record RpcErrResult : Type 0 where
  pub error : Str
  pub error_code : ℤ
  pub error_message : Str

-- `memoItemRes` inside `memoRes`
pub record MemoRes : Type 0 where
  pub memo_data : Str
  pub memo_type : Str

-- `metaRes`
pub record MetaRes (R : Ripple) : Type 0 where
  pub delivered_amount : Amount R.Value
  pub transaction_result : Str
  pub affected_nodes : R.NodeEffects

-- `baseTx`
pub record BaseTx : Type 0 where
  pub account : Str
  pub destination : Str
  pub hash : Str
  pub transaction_type : Str
  pub date : ℤ
  pub sequence : ℤ
  pub memos : List MemoRes

-- `accountTxResTransactionsItem`, with the fields of its `Tx`; also `txResTransactionsItem`.
pub record TxItem (R : Ripple) : Type 0 where
  pub meta : MetaRes R
  pub base_tx : BaseTx
  pub ledger_index : ℤ
  pub validated : Bool

-- `accountTxRes`
pub record AccountTxRes (R : Ripple) : Type 0 where
  pub transactions : List (TxItem R)
  pub marker : PageMarker

-- What is outside of the program in one call: the node, which answers a request with the body of
-- its response or an error, and the JSON decoder of Go (none where decoding fails).
pub record Node (R : Ripple) : Type 0 where
  pub do_json : RpcReq → Go Str
  pub decode_error : Str → Option RpcErrResult
  pub decode_account_tx : Str → Option (AccountTxRes R)
  pub decode_ledger_current : Str → Option ℤ
  pub decode_tx : Str → Option (TxItem R)
  -- `select` takes `ctx.Done()` in place of the send after this many sends, if at all, with this
  -- error of the context.
  pub done_after : Option ℕ
  pub done_cause : Cause
