-- ===== src/Xrpl/Rpc/Pages.antt =====
-- `GetAccountTransactions` and `SubscribeAccountTransactions` of relayer/client/xrpl/rpc.go: the
-- transactions of an account, page by page, into a channel.
pub mod Lossless
pub mod Keeps
pub mod Bound
pub mod Subscribe
pub mod Returns
use tx_xrpl_token_migrator.Base.{
  ℕ, zero, suc, ◌-◌, ◌==◌, ◌&&◌, Bool, true, false, Option, none, some, List, [], ◌∷◌, ◌++◌,
  if◌then◌else◌,
}
use tx_xrpl_token_migrator.Base.Int.{ℤ, pos, negsuc, ◌-ℤ◌, leb_ℤ, ltb_ℤ, eqb_ℤ, i64}
use tx_xrpl_token_migrator.Base.Str.{Str, codes}
use tx_xrpl_token_migrator.Base.Go.{Go, ok, err, panics, wrap, Cause}
use tx_xrpl_token_migrator.Ripple.{Ripple, Account}
use tx_xrpl_token_migrator.Xrpl.Model.{Transaction}
use tx_xrpl_token_migrator.Xrpl.Rpc.Types.{
  PageMarker, AccountTxReq, AccountTxRes, RpcReq, TxItem, Node,
}
use tx_xrpl_token_migrator.Xrpl.Rpc.Convert.{convert_tx_info_to_transaction}
use tx_xrpl_token_migrator.Xrpl.Rpc.Call.{call_rpc, wrap_err}

-- `RPCClientConfig`
pub record RpcClientConfig : Type 0 where
  pub url : Str
  pub page_limit : ℕ
  pub worker_pool_size : ℕ

-- What a call has sent to the channel, its latest index, and its first result and error.
pub record Sent (R : Ripple) (A : Type 0) : Type 0 where
  pub sent : List (Transaction R)
  pub latest_index : ℤ
  pub result : Go A

-- The sends that are left before the context is done.
abbrev pub countdown : Option ℕ → Option ℕ
countdown none = none
countdown (some n) = some (n - 1)

abbrev pub is_done : Option ℕ → Bool
is_done none = false
is_done (some n) = n == 0

-- The zero marker ends the paging.
abbrev pub is_end : PageMarker → Bool
is_end m = eqb_ℤ m.seq (pos 0) && eqb_ℤ m.ledger (pos 0)

abbrev pub larger_index : ℤ → ℤ → ℤ
larger_index latest max_latest = if ltb_ℤ max_latest latest then latest else max_latest

module _ (R : Ripple) where
  -- The item as a transaction, or the error of its conversion.
  unfoldable pub item_transaction : TxItem R → Go (Transaction R × Bool)
  item_transaction item =
      convert_tx_info_to_transaction R item.base_tx item.meta item.ledger_index item.validated

  abbrev pub prepend : {A : Type 0} → Transaction R → Sent R A → Sent R A
  prepend txn s = record s { sent = txn ∷ s.sent }

  -- The loop over the items of a page; `marker` is what the page returns at its end.
  unfoldable pub send_items :
      Cause → PageMarker → Option ℕ → ℤ → List (TxItem R) → Sent R PageMarker
  send_items cause marker left latest [] = record {
    sent = [];
    latest_index = i64 (latest -ℤ pos 1);
    result = ok marker;
  }
  send_items cause marker left latest (item ∷ items) =
      let rest = λ (l : Option ℕ). send_items cause marker l item.ledger_index items in
      elim (item_transaction item) [
        | err e ↦ record {
          sent = [];
          latest_index = i64 (item.ledger_index -ℤ pos 1);
          result = err e;
        }
        | panics ↦ record { sent = []; latest_index = pos 0; result = panics }
        | ok (txn, valid) ↦
            if valid
            then if is_done left
              then record {
                sent = [];
                latest_index = pos 0;
                result = err (record { message = codes "context"; cause = cause });
              }
              else prepend txn (rest (countdown left))
            else rest left
      ]

  -- The request of one page: an index that is not positive becomes -1.
  unfoldable pub from_index : ℤ → ℤ
  from_index ledger = if leb_ℤ ledger (pos 0) then negsuc 0 else ledger

  -- What an earlier page has sent stands in front.
  abbrev pub after_page :
      {A : Type 0} → List (Transaction R) → Option (Sent R A) → Option (Sent R A)
  after_page sent none = none
  after_page sent (some s) = some (record s { sent = sent ++ s.sent })

  module _ (cfg : RpcClientConfig) (account : Account) (start_ledger end_ledger : ℤ) where
    unfoldable pub account_tx_req : Option PageMarker → RpcReq
    unfolding from_index
    account_tx_req marker = RpcReq.account_tx (record {
      account = R.account_string account;
      binary = false;
      forward = true;
      ledger_index_min = from_index start_ledger;
      ledger_index_max = from_index end_ledger;
      limit = cfg.page_limit;
      marker = marker;
    })

    -- `GetAccountTransactions`
    unfoldable pub get_account_transactions : Node R → Option PageMarker → Sent R PageMarker
    unfolding account_tx_req from_index
    get_account_transactions node marker =
        elim (call_rpc R node node.decode_account_tx (account_tx_req marker)) [
          | ok res ↦
              send_items node.done_cause res.marker node.done_after (from_index start_ledger)
                res.transactions
          | err e ↦ record {
            sent = [];
            latest_index = i64 (from_index start_ledger -ℤ pos 1);
            result = err (wrap (codes "failed to call `account_tx` method") e);
          }
          | panics ↦ record { sent = []; latest_index = pos 0; result = panics }
        ]

    -- The loop of `SubscribeAccountTransactions`, a node for each page; none where the nodes run
    -- out before the loop ends.
    unfoldable pub subscribe_pages :
        Option PageMarker → ℤ → List (Node R) → Option (Sent R (Unit {0}))
    subscribe_pages marker max_latest [] = none
    subscribe_pages marker max_latest (node ∷ nodes) =
        let page = get_account_transactions node marker in
        let max_latest' = larger_index page.latest_index max_latest in
        let more = λ (next : PageMarker). subscribe_pages (some next) max_latest' nodes in
        elim page.result [
          | err e ↦ some (record { sent = page.sent; latest_index = max_latest'; result = err e })
          | panics ↦ some (record { sent = page.sent; latest_index = max_latest'; result = panics })
          | ok next ↦
              if is_end next
              then some (record { sent = page.sent; latest_index = max_latest'; result = ok tt })
              else after_page page.sent (more next)
        ]

    -- `SubscribeAccountTransactions`
    unfoldable pub subscribe_account_transactions : List (Node R) → Option (Sent R (Unit {0}))
    unfolding subscribe_pages
    subscribe_account_transactions nodes = subscribe_pages none (pos 0) nodes
