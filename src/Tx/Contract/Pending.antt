-- ===== src/Tx/Contract/Pending.antt =====
-- The pending transactions of the contract in relayer/client/tx/contract.go: all of them, page by
-- page, and the messages that execute them.
pub mod Partition
pub mod Ids
pub mod Messages
use tx_xrpl_token_migrator.Base.{
  ℕ, zero, suc, ◌+◌, ◌%◌, ◌^◌, ◌==◌, Bool, true, false, not, ◌||◌, Option, none, some, List, [],
  ◌∷◌, ◌++◌, ltb, length, filter, if◌then◌else◌,
}
use tx_xrpl_token_migrator.Base.Str.{Str, codes, str_eq}
use tx_xrpl_token_migrator.Base.Go.{Go, ok, err, panics, ◌>>=◌, new_error, or_panic}
use tx_xrpl_token_migrator.Sdk.{Sdk, Address}
use tx_xrpl_token_migrator.Xrpl.Rpc.Call.{wrap_err}
use tx_xrpl_token_migrator.Tx.Contract.Types.{
  ContractClientConfig, ExecMethod, Config, PendingTransaction,
}
use tx_xrpl_token_migrator.Tx.Contract.Cosmos.{Chain, Msg}
use tx_xrpl_token_migrator.Tx.Contract.Execute.{build_execute_with_funds}
use tx_xrpl_token_migrator.Tx.Contract.Query.{get_contract_config, get_pending_txs}

-- The unapproved and the approved transactions.
pub record Split : Type 0 where
  pub unapproved : List PendingTransaction
  pub approved : List PendingTransaction

-- Fewer providers than the threshold: the count is an uint32.
abbrev pub is_unapproved : ℕ → PendingTransaction → Bool
is_unapproved threshold tx = ltb (length tx.transaction.evidence_providers % 2 ^ 32) threshold

-- The loop over a page appends to both lists.
unfoldable pub split_page : ℕ → List PendingTransaction → Split → Split
split_page threshold [] s = s
split_page threshold (tx ∷ txs) s = split_page threshold txs (
    if is_unapproved threshold tx
    then record s { unapproved = s.unapproved ++ tx ∷ [] }
    else record s { approved = s.approved ++ tx ∷ [] })

-- The key is in the map.
unfoldable pub has_id : Str → List Str → Bool
has_id id [] = false
has_id id (other ∷ ids) = str_eq id other || has_id id ids

-- `delete` of a key.
unfoldable pub delete : Str → List Str → List Str
delete id ids = filter (λ other. not (str_eq id other)) ids

module _ (S : Sdk) (C : Chain) (cfg : ContractClientConfig) where
  -- The loop of `GetAllPendingTransactions`, on fuel: none where it runs out.
  unfoldable pub all_pages : ℕ → ℕ → ℕ → ℕ → Split → Option (Go Split)
  unfolding split_page
  all_pages zero threshold offset limit s = none
  all_pages (suc fuel) threshold offset limit s =
      let rest = λ (txs : List PendingTransaction).
        all_pages fuel threshold ((offset + cfg.contract_page_size) % 2 ^ 64)
          ((limit + cfg.contract_page_size) % 2 ^ 32) (split_page threshold txs s) in
      elim (get_pending_txs S C cfg (some offset) (some limit)) [
        | err e ↦ some (err e)
        | panics ↦ some panics
        | ok txs ↦ if length txs == 0 then some (ok s) else rest txs
      ]

  -- `GetAllPendingTransactions`
  unfoldable pub get_all_pending_transactions : ℕ → Option (Go Split)
  unfolding all_pages
  get_all_pending_transactions fuel = elim (get_contract_config S C cfg) [
    | err e ↦ some (err e)
    | panics ↦ some panics
    | ok contract_cfg ↦
        all_pages fuel contract_cfg.threshold 0 cfg.contract_page_size
          (record { unapproved = []; approved = [] })
  ]

  -- The message that executes one pending transaction.
  unfoldable pub message_of : Address → PendingTransaction → Go Msg
  unfolding wrap_err
  message_of sender tx = or_panic (C.new_coins (tx.transaction.amount ∷ [])) >>= λ coins.
      wrap_err (codes "failed to execute execute_pending Method")
        (build_execute_with_funds S C cfg sender coins (ExecMethod.execute_pending tx.evidence_id))

  -- The loop of `BuildExecutePendingMessages`; the map of ids is the list of its keys.
  unfoldable pub execute_messages :
      Bool → Address → List Str → List PendingTransaction → Go (List Msg × List Str)
  unfolding has_id delete
  execute_messages include_all sender ids [] = ok ([], ids)
  execute_messages include_all sender ids (tx ∷ txs) =
      let skipped = execute_messages include_all sender ids txs in
      let taken = execute_messages include_all sender (delete tx.evidence_id ids) txs in
      if include_all || has_id tx.evidence_id ids
      then (message_of sender tx >>= λ msg. taken >>= λ (msgs, rest). ok (msg ∷ msgs, rest))
      else skipped

  -- What follows the query in `BuildExecutePendingMessages`.
  unfoldable pub messages_of : Address → List Str → Split → Go (List Msg)
  unfolding execute_messages
  messages_of sender evidence_ids s =
      execute_messages (length evidence_ids == 0) sender evidence_ids s.approved >>= λ (msgs, rest).
      if length rest == 0
      then ok msgs
      else err (
          new_error
            (codes "some of evidence ids are not found in the approved pending transactions"))

  -- `BuildExecutePendingMessages`
  unfoldable pub build_execute_pending_messages : ℕ → Address → List Str → Option (Go (List Msg))
  unfolding get_all_pending_transactions messages_of
  build_execute_pending_messages fuel sender evidence_ids =
      elim (get_all_pending_transactions fuel) [
        | none ↦ none
        | some r ↦ some (r >>= messages_of sender evidence_ids)
      ]
