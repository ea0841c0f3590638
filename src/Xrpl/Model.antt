-- ===== src/Xrpl/Model.antt =====
-- relayer/client/xrpl/model.go: a transaction of the XRPL as the other parts see it.
use tx_xrpl_token_migrator.Base.{Bool, List}
use tx_xrpl_token_migrator.Base.Int.{ℤ}
use tx_xrpl_token_migrator.Base.Str.{Str, codes}
use tx_xrpl_token_migrator.Ripple.{Ripple, Amount}

abbrev pub transaction_type_payment : Str
transaction_type_payment = codes "Payment"

abbrev pub transaction_result_success : Str
transaction_result_success = codes "tesSUCCESS"

-- A `time.Time`, in nanoseconds since the Unix epoch.
abbrev pub Time : Type 0
Time = ℤ

pub record Transaction (R : Ripple) : Type 0 where
  pub account : Str
  pub destination : Str
  pub delivery_amount : Amount R.Value
  pub memos : List Str
  pub hash : Str
  pub transaction_type : Str
  pub transaction_result : Str
  pub ledger_index : ℤ
  pub sequence : ℤ
  pub date : Time
  pub validated : Bool
  pub affected_nodes : R.NodeEffects
