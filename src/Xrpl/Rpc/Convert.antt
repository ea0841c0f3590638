-- ===== src/Xrpl/Rpc/Convert.antt =====
-- The conversions of relayer/client/xrpl/rpc.go: hex memos, ledger dates, transactions.
pub mod Memo
use tx_xrpl_token_migrator.Base.{
  ℕ, ◌+◌, ◌-◌, ◌*◌, Bool, true, ◌&&◌, Option, none, some, List, [], ◌∷◌, leb, if◌then◌else◌,
}
use tx_xrpl_token_migrator.Base.Int.{ℤ, pos, ◌+ℤ◌, ◌*ℤ◌, i64}
use tx_xrpl_token_migrator.Base.Str.{Str, codes}
use tx_xrpl_token_migrator.Base.Go.{Go, ok, err, ◌>>=◌, new_error}
use tx_xrpl_token_migrator.Ripple.{Ripple}
use tx_xrpl_token_migrator.Xrpl.Model.{Transaction, Time}
use tx_xrpl_token_migrator.Xrpl.Rpc.Types.{MemoRes, MetaRes, BaseTx}

-- The value of a hexadecimal digit.
unfoldable pub hex_digit : ℕ → Option ℕ
hex_digit c =
    if leb b'0' c && leb c b'9'
    then some (c - b'0')
    else if leb b'a' c && leb c b'f'
    then some (c - b'a' + 10)
    else if leb b'A' c && leb c b'F'
    then some (c - b'A' + 10)
    else none

-- The byte of two digits.
unfoldable pub hex_byte : ℕ → ℕ → Option ℕ
unfolding hex_digit
hex_byte a b = elim (hex_digit a) [
  | none ↦ none
  | some h ↦ elim (hex_digit b) [ none ↦ none | some l ↦ some (h * 16 + l) ]
]

abbrev cons_byte : Option ℕ → Option Str → Option Str
cons_byte (some b) (some s) = some (b ∷ s)
cons_byte (some b) none = none
cons_byte none s = none

-- `hex.DecodeString`: none on a digit that is none, or on an odd number of digits.
unfoldable pub hex_decode : Str → Option Str
hex_decode [] = some []
hex_decode (a ∷ []) = none
hex_decode (a ∷ b ∷ s) = cons_byte (hex_byte a b) (hex_decode s)

-- `convertHexMemosToStrings`
unfoldable pub convert_hex_memos_to_strings : List MemoRes → Go (List Str)
convert_hex_memos_to_strings [] = ok []
convert_hex_memos_to_strings (memo ∷ memos) = elim (hex_decode memo.memo_data) [
  | none ↦ err (new_error (codes "failed to decode xrpl memo"))
  | some memo_str ↦ convert_hex_memos_to_strings memos >>= λ rest. ok (memo_str ∷ rest)
]

-- `convertXRPLDateToTime`: seconds since the start of 2000, with the product in an int64.
unfoldable pub convert_xrpl_date_to_time : ℤ → Time
convert_xrpl_date_to_time date = pos 946_684_800_000_000_000 +ℤ i64 (date *ℤ pos 1_000_000_000)

module _ (R : Ripple) where
  -- `convertTxInfoToTransaction`; its second result is true wherever there is no error.
  unfoldable pub convert_tx_info_to_transaction :
      BaseTx → MetaRes R → ℤ → Bool → Go (Transaction R × Bool)
  convert_tx_info_to_transaction txn meta ledger_index validated =
      convert_hex_memos_to_strings txn.memos >>= λ memos. ok (
        record {
          account = txn.account;
          destination = txn.destination;
          delivery_amount = meta.delivered_amount;
          memos = memos;
          hash = txn.hash;
          transaction_type = txn.transaction_type;
          transaction_result = meta.transaction_result;
          ledger_index = ledger_index;
          sequence = txn.sequence;
          date = convert_xrpl_date_to_time txn.date;
          validated = validated;
          affected_nodes = meta.affected_nodes;
        },
        true,
      )
