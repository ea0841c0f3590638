-- ===== src/Finder/Build.antt =====
-- `buildPendingTransaction` of relayer/finder/finder.go: which transactions of the XRPL are burns
-- to be paid out on TX, and what is paid.
pub mod Accepts
use tx_xrpl_token_migrator.Base.{
  ℕ, ◌==◌, Bool, true, false, not, ◌||◌, Option, none, some, List, length, if◌then◌else◌,
}
use tx_xrpl_token_migrator.Base.Int.{ℤ, pos, ltb_ℤ, eqb_ℤ}
use tx_xrpl_token_migrator.Base.Str.{Str, str_eq}
use tx_xrpl_token_migrator.Base.Go.{Go, ok, err, panics, ◌>>=◌, or_panic}
use tx_xrpl_token_migrator.Rat.{RatParser}
use tx_xrpl_token_migrator.Ripple.{Ripple, Account, Currency}
use tx_xrpl_token_migrator.Sdk.{Sdk, Address, Coin}
use tx_xrpl_token_migrator.Xrpl.Model.{
  Transaction, Time, transaction_type_payment, transaction_result_success,
}
use tx_xrpl_token_migrator.Finder.Convert.{convert_xrpl_amount_to_tx_amount}
use tx_xrpl_token_migrator.Finder.Memo.{extract_address_from_memo}
use tx_xrpl_token_migrator.Finder.Burn.{received_at_least_delivered_amount}

-- `PendingTXSendTransaction`
pub record Pending : Type 0 where
  pub tx_destination : Address
  pub tx_amount : Coin
  pub xrpl_tx_hash : Str

-- `Config`
pub record Config : Type 0 where
  pub xrpl_issuer : Account
  pub xrpl_currency : Currency
  pub activation_date : Time
  pub multiplier : Str
  pub xrpl_history_scan_start_ledger : ℤ
  pub xrpl_recent_scan_indexes_back : ℤ
  pub xrpl_memo_suffix : Str
  pub tx_denom : Str
  pub tx_decimals : ℕ

module _ (R : Ripple) (S : Sdk) (P : RatParser) (cfg : Config) where
  -- `convertXRPLAmountToTXCoin`
  unfoldable pub convert_xrpl_amount_to_tx_coin : Option R.Value → Go Coin
  convert_xrpl_amount_to_tx_coin xrpl_amount =
      convert_xrpl_amount_to_tx_amount R S P xrpl_amount cfg.tx_decimals cfg.multiplier
      >>= λ amount. or_panic (S.new_coin cfg.tx_denom amount)

  -- The last part: the burn has been verified, and the amount is converted.
  unfoldable pub pay_out : Transaction R → Address → Go (Option Pending)
  pay_out txn tx_destination =
      convert_xrpl_amount_to_tx_coin txn.delivery_amount.value >>= λ tx_coin.
      if eqb_ℤ tx_coin.amount (pos 0)
      then ok none
      else ok (
          some (record {
            tx_destination = tx_destination;
            tx_amount = tx_coin;
            xrpl_tx_hash = txn.hash;
          }))

  -- The check of the ledger changes: an error of the check skips the transaction too.
  unfoldable pub verify_burn : Transaction R → Address → Go (Option Pending)
  verify_burn txn tx_destination =
      elim (received_at_least_delivered_amount R cfg.xrpl_issuer txn.delivery_amount
        txn.affected_nodes) [
          | ok true ↦ pay_out txn tx_destination
          | ok false ↦ ok none
          | err _ ↦ ok none
          | panics ↦ panics
        ]

  -- The checks of the destination and of the token; `IsNative` panics on a nil value.
  unfoldable pub check_token : Transaction R → Address → Go (Option Pending)
  check_token txn tx_destination = or_panic txn.delivery_amount.value >>= λ _.
      if R.is_native txn.delivery_amount
      then ok none
      else if not (
            str_eq (R.currency_string txn.delivery_amount.currency)
              (R.currency_string cfg.xrpl_currency))
          || not (
              str_eq (R.account_string txn.delivery_amount.issuer)
                (R.account_string cfg.xrpl_issuer))
      then ok none
      else if not (str_eq txn.destination (R.account_string cfg.xrpl_issuer))
      then ok none
      else verify_burn txn tx_destination

  -- `none` is the return of `false`.
  unfoldable pub build_pending_transaction : Transaction R → Go (Option Pending)
  build_pending_transaction txn =
      if not txn.validated
        || (not (str_eq txn.transaction_result transaction_result_success)
            || not (str_eq txn.transaction_type transaction_type_payment))
      then ok none
      else if ltb_ℤ txn.date cfg.activation_date
      then ok none
      else if length txn.memos == 0
      then ok none
      else elim (extract_address_from_memo S txn.memos cfg.xrpl_memo_suffix) [
        | none ↦ ok none
        | some tx_destination ↦ check_token txn tx_destination
      ]
