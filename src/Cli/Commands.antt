-- ===== src/Cli/Commands.antt =====
-- The other commands of relayer/cmd/main.go. A command is what it prints, or the transaction that it
-- generates.
pub mod Opened
pub mod Generates
use tx_xrpl_token_migrator.Base.{
  ℕ, Bool, true, false, Option, none, some, List, [], ◌∷◌, map, if◌then◌else◌,
}
use tx_xrpl_token_migrator.Base.Str.{Str, codes}
use tx_xrpl_token_migrator.Base.Go.{Go, ok, err, panics, ◌>>=◌, Error, new_error}
use tx_xrpl_token_migrator.Rat.{RatParser}
use tx_xrpl_token_migrator.Ripple.{Ripple}
use tx_xrpl_token_migrator.Sdk.{Sdk, Address, Coin}
use tx_xrpl_token_migrator.Xrpl.Model.{Time}
use tx_xrpl_token_migrator.Xrpl.Model
use tx_xrpl_token_migrator.Xrpl.Rpc.Call.{wrap_err}
use tx_xrpl_token_migrator.Tx.Contract.Types.{Config, PendingTransaction, XrplToken}
use tx_xrpl_token_migrator.Tx.Contract.Cosmos.{Msg}
use tx_xrpl_token_migrator.Tx.Contract.Query.{get_contract_config}
use tx_xrpl_token_migrator.Tx.Contract.Execute.{
  build_update_trusted_addresses_transaction, build_add_xrpl_tokens_transaction,
  build_migrate_contract_message,
}
use tx_xrpl_token_migrator.Tx.Contract.Pending.{
  Split, get_all_pending_transactions, build_execute_pending_messages,
}
use tx_xrpl_token_migrator.Tx.Contract.Estimate.{Estimator, estimate_execute_messages}
use tx_xrpl_token_migrator.Audit.Types.{TxResponse, Discrepancy, Decoders}
use tx_xrpl_token_migrator.Audit.Run.{audit}
use tx_xrpl_token_migrator.Service.{Iteration, run_executor_with_auto_restart}
use tx_xrpl_token_migrator.Service.Clients.{
  World, ContractClient, Context, is_empty, new_contract_client,
}
use tx_xrpl_token_migrator.Service.New.{new_auditor}
use tx_xrpl_token_migrator.Cli.Flags.{Setting, FlagName, Flags, get_string_slice}
use tx_xrpl_token_migrator.Cli.Settings.{ServicesConfig, Outside, read_services_config}
use tx_xrpl_token_migrator.Cli.Token.{parse_uint, parse_tokens}
use tx_xrpl_token_migrator.Cli.Deploy.{address_of}

-- The transaction that is handed to `GenerateOrBroadcastTxWithFactory`.
pub record GeneratedTx : Type 0 where
  pub chain_id : Str
  pub fees : Coin
  pub gas : ℕ
  pub msgs : List Msg

-- An answer that may not come within the fuel, and what is done with it.
abbrev pub then_finished : {A B : Type 0} → Option (Go A) → (A → Go B) → Option (Go B)
then_finished none next = none
then_finished (some result) next = some (result >>= next)

-- A command that goes on for as long as `next` needs.
abbrev pub and_then : {A B : Type 0} → Go A → (A → Option (Go B)) → Option (Go B)
and_then (ok a) next = next a
and_then (err e) next = some (err e)
and_then panics next = some panics

-- The loop of `BuildUpdateTrustedAddressesTransactionCmd` over the addresses.
unfoldable pub addresses_of : Sdk → List Str → Go (List Address)
unfolding address_of
addresses_of S [] = ok []
addresses_of S (text ∷ texts) = address_of S (codes "invalid address") text >>= λ a.
    addresses_of S texts >>= λ addresses. ok (a ∷ addresses)

-- `preProcessFlags`, with the value of the flag of the chain id.
unfoldable pub pre_process_flags : World → Go Str → Go (Unit {0})
pre_process_flags W parsed = parsed >>= λ chain_id.
    if is_empty chain_id
    then err (new_error (codes "flag tx-chain-id is required"))
    else W.network_config_by_chain_id chain_id >>= λ network. ok tt

module _ (S : Sdk) (W : World) (O : Outside) (flags : Flags) (order : List Setting)
    (client_query_context : Go W.Keyring) where
  -- What the commands on the contract begin with: the configuration and the client.
  unfoldable pub opened : Go (ServicesConfig × ContractClient S W)
  unfolding read_services_config new_contract_client
  opened = read_services_config O flags order >>= λ cfg. client_query_context >>= λ keyring.
      new_contract_client S W cfg keyring >>= λ client. ok (cfg, client)

  -- `StartCmd`, with the rounds of the loop.
  unfoldable pub start_cmd : List Iteration → Option (Go (Unit {0}))
  unfolding read_services_config run_executor_with_auto_restart
  start_cmd iterations = and_then (read_services_config O flags order) (λ cfg.
      if is_empty cfg.prometheus_url
      then some (err (new_error (codes "flag prometheus-url is required")))
      else and_then client_query_context (λ keyring. run_executor_with_auto_restart iterations))

  -- `GetContractConfigCmd`
  unfoldable pub get_contract_config_cmd : Go Config
  unfolding opened get_contract_config
  get_contract_config_cmd =
      opened >>= λ (cfg, client). get_contract_config S (W.chain client.client_ctx 0) client.cfg

  -- The pending transactions of the contract, with fuel for the pages.
  unfoldable pub pending_split : ℕ → Option (Go Split)
  unfolding opened get_all_pending_transactions
  pending_split fuel = and_then opened (λ (cfg, client).
      get_all_pending_transactions S (W.chain client.client_ctx 0) client.cfg fuel)

  -- `GetPendingUnapprovedTransactionsCmd`
  unfoldable pub get_pending_unapproved_cmd : ℕ → Option (Go (List PendingTransaction))
  unfolding pending_split
  get_pending_unapproved_cmd fuel = then_finished (pending_split fuel) (λ s. ok s.unapproved)

  -- `GetPendingApprovedTransactionsCmd`: the ids.
  unfoldable pub get_pending_approved_cmd : ℕ → Option (Go (List Str))
  unfolding pending_split
  get_pending_approved_cmd fuel =
      then_finished (pending_split fuel) (λ s. ok (map (λ t. t.evidence_id) s.approved))

  -- `AuditCmd`: the discrepancies that it logs, with the answers of the clients.
  module _ (R : Ripple) (P : RatParser) (D : Decoders)
      (spending : Str → Time → Go (List TxResponse))
      (get_transactions : List Str
        → Go (Str → Option (tx_xrpl_token_migrator.Xrpl.Model.Transaction R))) where
    unfoldable pub audit_cmd : Go (List (Discrepancy R))
    unfolding read_services_config new_auditor audit
    audit_cmd = read_services_config O flags order >>= λ cfg. client_query_context >>= λ keyring.
        new_auditor R S W 0 cfg keyring >>= λ auditor.
        audit R S P D auditor.cfg (spending auditor.cfg.contract_address auditor.start_date)
          get_transactions

  -- The commands that generate a transaction.
  module _ (estimator : Context S W → Estimator) (new_factory_cli : Go (Unit {0})) where
    -- The estimate, and the transaction with it.
    unfoldable pub generated :
        ServicesConfig → ContractClient S W → Address → List Msg → Go GeneratedTx
    unfolding estimate_execute_messages wrap_err
    generated cfg client sender msgs =
        estimate_execute_messages S (estimator client.client_ctx) client.cfg sender msgs
        >>= λ (fees, gas). wrap_err (codes "failed to create tx factory") new_factory_cli >>= λ _.
            ok (record { chain_id = cfg.tx_chain_id; fees = fees; gas = gas; msgs = msgs })

    -- The configuration, the client and the signer.
    unfoldable pub opened_signer : Go (ServicesConfig × ContractClient S W × Address)
    unfolding opened address_of
    opened_signer = opened >>= λ (cfg, client).
        address_of S (codes "invalid signer address") cfg.tx_sender_address >>= λ sender.
        ok (cfg, client, sender)

    -- `BuildExecutePendingApprovedTransactionsCmd`, with fuel for the pages.
    unfoldable pub build_execute_pending_cmd : ℕ → Option (Go GeneratedTx)
    unfolding opened_signer generated build_execute_pending_messages
    build_execute_pending_cmd fuel = and_then opened_signer (λ (cfg, client, sender).
        and_then (get_string_slice flags FlagName.tx_contract_evidence_ids) (λ ids.
          then_finished
            (build_execute_pending_messages S (W.chain client.client_ctx 0) client.cfg fuel sender
              ids)
            (λ msgs. generated cfg client sender msgs)))

    -- `BuildMigrateContractTransactionCmd`, with its argument.
    unfoldable pub build_migrate_contract_cmd : Str → Go GeneratedTx
    unfolding opened_signer generated parse_uint wrap_err build_migrate_contract_message
    build_migrate_contract_cmd arg = opened_signer >>= λ (cfg, client, sender).
        wrap_err (codes "failed to parse codeID") (parse_uint arg) >>= λ code_id.
        generated cfg client sender (
          build_migrate_contract_message S (W.chain client.client_ctx 0) client.cfg sender code_id
            none
          ∷ [])

    -- `BuildUpdateTrustedAddressesTransactionCmd`
    unfoldable pub build_update_trusted_addresses_cmd : Go GeneratedTx
    unfolding opened_signer generated addresses_of build_update_trusted_addresses_transaction
    build_update_trusted_addresses_cmd = opened_signer >>= λ (cfg, client, sender).
        get_string_slice flags FlagName.tx_contract_trusted_addresses >>= λ texts.
        addresses_of S texts >>= λ addresses.
        build_update_trusted_addresses_transaction S (W.chain client.client_ctx 0) client.cfg sender
          addresses
        >>= λ msg. generated cfg client sender (msg ∷ [])

    -- `BuildAddXRPLTokensTransactionCmd`
    unfoldable pub build_add_xrpl_tokens_cmd : Go GeneratedTx
    unfolding opened_signer generated parse_tokens build_add_xrpl_tokens_transaction
    build_add_xrpl_tokens_cmd = opened_signer >>= λ (cfg, client, sender).
        get_string_slice flags FlagName.xrpl_token >>= λ texts. parse_tokens texts >>= λ tokens.
        build_add_xrpl_tokens_transaction S (W.chain client.client_ctx 0) client.cfg sender tokens
        >>= λ msg. generated cfg client sender (msg ∷ [])
