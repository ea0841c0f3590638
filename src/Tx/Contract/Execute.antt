-- ===== src/Tx/Contract/Execute.antt =====
-- The transactions of relayer/client/tx/contract.go.
use tx_xrpl_token_migrator.Base.{ℕ, Option, none, some, List, [], ◌∷◌, map}
use tx_xrpl_token_migrator.Base.Int.{ℤ}
use tx_xrpl_token_migrator.Base.Str.{Str, codes}
use tx_xrpl_token_migrator.Base.Go.{Go, ok, err, ◌>>=◌, new_error, or_panic}
use tx_xrpl_token_migrator.Sdk.{Sdk, Address, Coin}
use tx_xrpl_token_migrator.Xrpl.Rpc.Call.{wrap_err}
use tx_xrpl_token_migrator.Tx.Contract.Types.{
  ContractClientConfig, ThresholdBankSendRequest, ExecMethod, XrplToken, DeployAndInstantiateConfig,
}
use tx_xrpl_token_migrator.Tx.Contract.Cosmos.{Chain, Msg}

-- `SetContractAddress`: the new configuration of the client.
unfoldable pub set_contract_address : Address → ContractClientConfig → Go ContractClientConfig
set_contract_address contract_address cfg = elim cfg.contract_address [
  | some _ ↦ err (new_error (codes "contract address is already set"))
  | none ↦ ok (record cfg { contract_address = some contract_address })
]

module _ (S : Sdk) (C : Chain) (cfg : ContractClientConfig) where
  -- The contract's address, or the error of a client without one.
  unfoldable pub address_or_error : Go Address
  address_or_error = elim cfg.contract_address [
    | none ↦ err (new_error (codes "failed to execute with empty contract address"))
    | some a ↦ ok a
  ]

  -- The text of the address, which is empty for a nil one.
  unfoldable pub address_text : Str
  address_text = elim cfg.contract_address [ none ↦ [] | some a ↦ S.address_string a ]

  -- `buildExecuteWithFunds`
  unfoldable pub build_execute_with_funds : Address → List Coin → ExecMethod → Go Msg
  unfolding wrap_err address_or_error
  build_execute_with_funds sender funds req = address_or_error >>= λ contract.
      wrap_err (codes "can't marshal payload") (C.marshal_exec req) >>= λ payload.
      ok (
        Msg.msg_execute_contract (S.address_string sender) (S.address_string contract) payload
          funds)

  -- `executeWithFunds`
  unfoldable pub execute_with_funds : Address → List Coin → ExecMethod → Go C.TxResponse
  execute_with_funds sender funds req =
      build_execute_with_funds sender funds req >>= λ msg. C.broadcast_tx sender (msg ∷ [])

  -- The messages of `execute`, one for each request.
  unfoldable pub execute_msgs : Address → Address → List ExecMethod → Go (List Msg)
  execute_msgs sender contract [] = ok []
  execute_msgs sender contract (req ∷ requests) =
      wrap_err (codes "can't marshal payload") (C.marshal_exec req) >>= λ payload.
      execute_msgs sender contract requests >>= λ msgs. ok (
        Msg.msg_execute_contract (S.address_string sender) (S.address_string contract) payload []
        ∷ msgs)

  -- `execute`
  unfoldable pub execute : Address → List ExecMethod → Go C.TxResponse
  unfolding execute_msgs address_or_error
  execute sender requests = address_or_error >>= λ contract.
      execute_msgs sender contract requests >>= λ msgs. C.broadcast_tx sender msgs

  -- `ThresholdBankSend`
  unfoldable pub threshold_bank_send : Address → List ThresholdBankSendRequest → Go C.TxResponse
  unfolding execute wrap_err
  threshold_bank_send sender requests =
      wrap_err (codes "failed to execute threshold_bank_send Method")
        (execute sender (map ExecMethod.threshold_bank_send requests))

  -- `UpdateMinAmount`
  unfoldable pub update_min_amount : Address → ℤ → Go C.TxResponse
  unfolding execute wrap_err
  update_min_amount sender min_amount =
      wrap_err (codes "failed to execute update_min_amount Method")
        (execute sender (ExecMethod.update_min_amount min_amount ∷ []))

  -- `UpdateOwner`
  unfoldable pub update_owner : Address → Str → Go C.TxResponse
  unfolding execute wrap_err
  update_owner sender new_owner =
      wrap_err (codes "failed to execute update_owner Method")
        (execute sender (ExecMethod.update_owner new_owner ∷ []))

  -- `UpdateMaxAmount`
  unfoldable pub update_max_amount : Address → ℤ → Go C.TxResponse
  unfolding execute wrap_err
  update_max_amount sender max_amount =
      wrap_err (codes "failed to execute update_max_amount Method")
        (execute sender (ExecMethod.update_max_amount max_amount ∷ []))

  -- `ExecutePending`
  unfoldable pub execute_pending : Address → Coin → Str → Go C.TxResponse
  unfolding execute_with_funds wrap_err
  execute_pending sender funds evidence_id = or_panic (C.new_coins (funds ∷ [])) >>= λ coins.
      wrap_err (codes "failed to execute execute_pending Method")
        (execute_with_funds sender coins (ExecMethod.execute_pending evidence_id))

  -- `BuildUpdateTrustedAddressesTransaction`
  unfoldable pub build_update_trusted_addresses_transaction : Address → List Address → Go Msg
  unfolding build_execute_with_funds wrap_err
  build_update_trusted_addresses_transaction sender new_trusted_addresses =
      wrap_err (codes "failed to build tx for update_trusted_addresses Method") (
        build_execute_with_funds sender []
          (ExecMethod.update_trusted_addresses new_trusted_addresses))

  -- `UpdateTrustedAddresses`
  unfoldable pub update_trusted_addresses : Address → List Address → Go C.TxResponse
  unfolding build_update_trusted_addresses_transaction wrap_err
  update_trusted_addresses sender new_trusted_addresses =
      build_update_trusted_addresses_transaction sender new_trusted_addresses >>= λ msg.
      wrap_err (codes "failed to update trusted addresses") (C.broadcast_tx sender (msg ∷ []))

  -- `BuildAddXRPLTokensTransaction`
  unfoldable pub build_add_xrpl_tokens_transaction : Address → List XrplToken → Go Msg
  unfolding build_execute_with_funds wrap_err
  build_add_xrpl_tokens_transaction sender xrpl_tokens =
      wrap_err (codes "failed to build tx for add_xrpl_tokens Method")
        (build_execute_with_funds sender [] (ExecMethod.add_xrpl_tokens xrpl_tokens))

  -- `AddXRPLTokens`
  unfoldable pub add_xrpl_tokens : Address → List XrplToken → Go C.TxResponse
  unfolding build_add_xrpl_tokens_transaction wrap_err
  add_xrpl_tokens sender xrpl_tokens =
      build_add_xrpl_tokens_transaction sender xrpl_tokens >>= λ msg.
      wrap_err (codes "failed to add XRPL tokens") (C.broadcast_tx sender (msg ∷ []))

  -- `BuildMigrateContractMessage`: a nil payload is the empty object.
  unfoldable pub build_migrate_contract_message : Address → ℕ → Option Str → Msg
  unfolding address_text
  build_migrate_contract_message sender code_id msg_payload =
      Msg.msg_migrate_contract (S.address_string sender) address_text code_id
        (elim msg_payload [ none ↦ codes "{}" | some p ↦ p ])

  -- `MigrateContract`
  unfoldable pub migrate_contract : Address → ℕ → Option Str → Go C.TxResponse
  unfolding build_migrate_contract_message wrap_err
  migrate_contract sender code_id msg_payload =
      wrap_err (codes "failed to migrate contract")
        (C.broadcast_tx sender (build_migrate_contract_message sender code_id msg_payload ∷ []))

  -- `Deploy`
  unfoldable pub deploy : Address → Go ℕ
  unfolding wrap_err
  deploy sender =
      wrap_err (codes "can't deploy wasm bytecode")
        (C.broadcast_tx sender (Msg.msg_store_code (S.address_string sender) ∷ []))
      >>= λ res. wrap_err (codes "can't find code ID in the tx result") (C.find_code_id res)

  -- `DeployAndInstantiate`
  unfoldable pub deploy_and_instantiate : Address → DeployAndInstantiateConfig → Go Address
  unfolding deploy wrap_err
  deploy_and_instantiate sender config = deploy sender >>= λ code_id.
      wrap_err (codes "can't marshal instantiate payload") (
        C.marshal_instantiate (record {
          owner = config.owner;
          trusted_addresses = config.trusted_addresses;
          threshold = config.threshold;
          min_amount = config.min_amount;
          max_amount = config.max_amount;
          xrpl_tokens = config.xrpl_tokens;
        }))
      >>= λ req_payload.
          wrap_err (codes "can't instantiate bytecode") (
            C.broadcast_tx sender (
              Msg.msg_instantiate_contract (S.address_string sender) config.admin code_id
                config.label req_payload
              ∷ []))
          >>= λ res.
              wrap_err (codes "can't find contract address in the tx result")
                (C.find_contract_address res)
              >>= λ contract_addr. elim (S.acc_address_from_bech32 contract_addr) [
                | none ↦ err (new_error (codes "can't convert contrac address to sdk.AccAddress"))
                | some a ↦ ok a
              ]
