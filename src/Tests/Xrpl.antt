-- ===== src/Tests/Xrpl.antt =====
-- The subscription to the XRPL on a sample history, and the metrics of the ledger index.
use mathlib.Core.Bool.{false≢true}
use tx_xrpl_token_migrator.Base.{
  ℕ, ◌<◌, ◌≡◌, refl, sym, ◌∙◌, subst, ◌⊎◌, true, false, Option, none, some, List, [], ◌∷◌, ◌++◌,
  All, arith, length,
}
use tx_xrpl_token_migrator.Base.Int.{ℤ, pos, ◌≤ℤ◌, ◌<ℤ◌, ◌+ℤ◌, ◌-ℤ◌, ◌*ℤ◌, i64}
use tx_xrpl_token_migrator.Base.Str.{codes}
use tx_xrpl_token_migrator.Base.Go.{ok, Cause, ok_injective}
use tx_xrpl_token_migrator.Metric.Recorder.{new_recorder}
use tx_xrpl_token_migrator.Metric.Recorder.Latest.{set_all, latest_follows_last}
use tx_xrpl_token_migrator.Xrpl.Model.{Transaction}
use tx_xrpl_token_migrator.Xrpl.Rpc.Types.{PageMarker, AccountTxRes, TxItem, Node}
use tx_xrpl_token_migrator.Xrpl.Rpc.Convert.{
  convert_xrpl_date_to_time, convert_tx_info_to_transaction, convert_hex_memos_to_strings,
}
use tx_xrpl_token_migrator.Xrpl.Rpc.Convert.{convert_hex_memos_to_strings}
use tx_xrpl_token_migrator.Xrpl.Rpc.Convert.Memo.{hex_encode, digit_of, memos_roundtrip}
use tx_xrpl_token_migrator.Xrpl.Rpc.Call.{call_rpc, decode_response, wrap_err}
use tx_xrpl_token_migrator.Xrpl.Rpc.Pages.{
  RpcClientConfig, is_end, Sent, from_index, get_account_transactions, send_items, item_transaction,
  subscribe_pages, subscribe_account_transactions,
}
use tx_xrpl_token_migrator.Xrpl.Rpc.Pages.Lossless.{IsLedger, Ascending, WasSent, IsAbove}
use tx_xrpl_token_migrator.Xrpl.Rpc.Pages.Keeps.{Serves, answer}
use tx_xrpl_token_migrator.Xrpl.Rpc.Pages.Subscribe.{subscribe_lossless, subscribe_complete}
use tx_xrpl_token_migrator.Xrpl.Rpc.Pages.Returns.{Advances, Ends, subscribe_pages-Ends}
use tx_xrpl_token_migrator.Xrpl.Rpc.Pages.Bound.{subscribe_bounds}
use tx_xrpl_token_migrator.Tests.Samples.{ripple}

abbrev pub rpc : RpcClientConfig
rpc = record { url = codes "u"; page_limit = 2; worker_pool_size = 1 }

abbrev pub item : ℕ → TxItem ripple
item n = record {
  meta = record {
    delivered_amount = record { value = some (pos 10); currency = codes "C"; issuer = codes "I" };
    transaction_result = codes "tesSUCCESS";
    affected_nodes = none;
  };
  base_tx = record {
    account = codes "U";
    destination = codes "I";
    hash = codes "H";
    transaction_type = codes "Payment";
    date = pos 9;
    sequence = pos 1;
    memos = [];
  };
  ledger_index = pos n;
  validated = true;
}

abbrev pub txn : ℕ → Transaction ripple
txn n = record {
  account = codes "U";
  destination = codes "I";
  delivery_amount = record { value = some (pos 10); currency = codes "C"; issuer = codes "I" };
  memos = [];
  hash = codes "H";
  transaction_type = codes "Payment";
  transaction_result = codes "tesSUCCESS";
  ledger_index = pos n;
  sequence = pos 1;
  date = pos 946_684_809_000_000_000;
  validated = true;
  affected_nodes = none;
}

abbrev pub items : List (TxItem ripple)
items = item 80 ∷ item 90 ∷ []

abbrev pub last_marker : PageMarker
last_marker = record { ledger = pos 0; seq = pos 0 }

abbrev page_of : List (TxItem ripple) → PageMarker → Node ripple
page_of xs marker = record {
  do_json = λ req. ok [];
  decode_error = λ body. some (record { error = []; error_code = pos 0; error_message = [] });
  decode_account_tx = λ body. some (record { transactions = xs; marker = marker });
  decode_ledger_current = λ body. some (pos 95);
  decode_tx = λ body. none;
  done_after = none;
  done_cause = Cause.canceled;
}

abbrev next_marker : PageMarker
next_marker = record { ledger = pos 80; seq = pos 1 }

abbrev pages : List (Node ripple)
pages =
    page_of (item 80 ∷ []) next_marker
    ∷ page_of (item 90 ∷ []) last_marker
    ∷ page_of [] last_marker
    ∷ []

-- A node with an answer of these items and this marker serves them.
pub Serves-answer :
    (node : Node ripple) (low high : ℤ) (marker : Option PageMarker)
    (xs later history : List (TxItem ripple)) (next : PageMarker) (nodes : List (Node ripple))
    → answer ripple rpc (codes "A") low high node marker
      ≡ ok (record { transactions = xs; marker = next })
    → history ≡ xs ++ later
    → (is_end next ≡ true → later ≡ [])
    → (is_end next ≡ false → Serves ripple rpc (codes "A") low high (some next) later nodes)
    → Serves ripple rpc (codes "A") low high marker history (node ∷ nodes)
Serves-answer node low high marker xs later history next nodes a split at_end more res e =
    subst
      (λ (r : AccountTxRes ripple).
        (x : List (TxItem ripple)) × (history ≡ r.transactions ++ x)
        × (is_end r.marker ≡ true → x ≡ [])
        × (is_end r.marker ≡ false
            → Serves ripple rpc (codes "A") low high (some r.marker) x nodes))
      (ok_injective (sym a ∙ e)) (later, split, at_end, more)

pages-Serves : Serves ripple rpc (codes "A") (pos 70) (pos 95) none items pages
unfolding call_rpc decode_response wrap_err
pages-Serves =
    Serves-answer (page_of (item 80 ∷ []) next_marker) (pos 70) (pos 95) none (item 80 ∷ [])
      (item 90 ∷ []) items next_marker
      (page_of (item 90 ∷ []) last_marker ∷ page_of [] last_marker ∷ []) refl refl
      (λ c. absurd (false≢true c))
      (λ c.
        Serves-answer (page_of (item 90 ∷ []) last_marker) (pos 70) (pos 95) (some next_marker)
          (item 90 ∷ []) [] (item 90 ∷ []) last_marker (page_of [] last_marker ∷ []) refl refl
          (λ d. refl) (λ d. absurd (false≢true (sym d))))

abbrev all_sent : Sent ripple (Unit {0})
all_sent = record { sent = txn 80 ∷ txn 90 ∷ []; latest_index = pos 89; result = ok tt }

pub items-Ascending : Ascending ripple (pos 70) items
items-Ascending = (omega arith, omega arith, (omega arith, omega arith, tt))

pub start-IsLedger : IsLedger (pos 70)
start-IsLedger = (omega arith, omega arith)

pages_run :
    subscribe_account_transactions ripple rpc (codes "A") (pos 70) (pos 95) pages ≡ some all_sent
unfolding subscribe_account_transactions subscribe_pages get_account_transactions send_items
    item_transaction call_rpc decode_response wrap_err convert_tx_info_to_transaction
    convert_hex_memos_to_strings convert_xrpl_date_to_time from_index ◌-ℤ◌ ◌+ℤ◌ ◌*ℤ◌ i64
pages_run = refl

subscribe_lossless_example :
    All (λ x. WasSent ripple all_sent.sent x ⊎ IsAbove ripple (pos 89) x) items
subscribe_lossless_example =
    subscribe_lossless ripple rpc (codes "A") (pos 70) (pos 95) pages items all_sent start-IsLedger
      items-Ascending pages-Serves pages_run

subscribe_complete_example : All (WasSent ripple all_sent.sent) items
subscribe_complete_example =
    subscribe_complete ripple rpc (codes "A") (pos 70) (pos 95) pages items all_sent start-IsLedger
      items-Ascending pages-Serves pages_run refl

subscribe_bounds_example : (pos 0 ≤ℤ pos 89) × (pos 89 <ℤ pos 90)
subscribe_bounds_example =
    subscribe_bounds ripple (pos 90) rpc (codes "A") (pos 70) (pos 95) pages items all_sent
      start-IsLedger (omega arith) items-Ascending (omega arith, (omega arith, tt)) pages-Serves
      pages_run

not_empty :
    (xs : List (TxItem ripple)) (marker : PageMarker) (m : Option PageMarker)
    (res : AccountTxRes ripple)
    → 0 < length xs
    → answer ripple rpc (codes "A") (pos 70) (pos 95) (page_of xs marker) m ≡ ok res
    → 0 < length res.transactions
unfolding call_rpc decode_response wrap_err
not_empty xs marker m res h e =
    subst (λ (r : AccountTxRes ripple). 0 < length r.transactions) (ok_injective e) h

last_ends :
    (m : Option PageMarker) (res : AccountTxRes ripple)
    → answer ripple rpc (codes "A") (pos 70) (pos 95) (page_of [] last_marker) m ≡ ok res
    → is_end res.marker ≡ true
unfolding call_rpc decode_response wrap_err
last_ends m res e =
    subst (λ (r : AccountTxRes ripple). is_end r.marker ≡ true) (ok_injective e) refl

pages-Advances : Advances ripple rpc (codes "A") (pos 70) (pos 95) pages
pages-Advances = (
  λ m res e c. not_empty (item 80 ∷ []) next_marker m res (omega arith) e,
  (
    λ m res e c. not_empty (item 90 ∷ []) last_marker m res (omega arith) e,
    (λ m res e c. absurd (false≢true (sym c ∙ last_ends m res e)), tt),
  ),
)

subscribe_pages-Ends_example : Ends ripple rpc (codes "A") (pos 70) (pos 95) none (pos 0) pages
subscribe_pages-Ends_example =
    subscribe_pages-Ends ripple rpc (codes "A") (pos 70) (pos 95) pages none (pos 0) items
      (omega arith) pages-Serves pages-Advances

latest_follows_last_example :
    (set_all (pos 90 ∷ pos 80 ∷ []) new_recorder).xrpl_latest_ledger_index_gauge ≡ pos 80
latest_follows_last_example = latest_follows_last (pos 90 ∷ []) (pos 80) (omega arith)

memos_roundtrip_example :
    convert_hex_memos_to_strings (
      record { memo_data = codes "486921"; memo_type = [] }
      ∷ record { memo_data = codes "4F"; memo_type = [] }
      ∷ [])
    ≡ ok (codes "Hi!" ∷ codes "O" ∷ [])
unfolding hex_encode digit_of
memos_roundtrip_example =
    memos_roundtrip (([], codes "Hi!") ∷ ([], codes "O") ∷ [])
      ((omega arith, (omega arith, (omega arith, tt))), ((omega arith, tt), tt))
