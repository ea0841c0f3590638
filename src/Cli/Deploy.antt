-- ===== src/Cli/Deploy.antt =====
-- `DeployAndInstantiateCmd` of relayer/cmd/main.go.
pub mod Checks
pub mod Accepts
use tx_xrpl_token_migrator.Base.{
  ℕ, ◌-◌, ◌==◌, ◌%◌, ◌^◌, Bool, true, false, Option, none, some, List, [], ◌∷◌, length,
  if◌then◌else◌,
}
use tx_xrpl_token_migrator.Base.Int.{ℤ, pos, negsuc, ltb_ℤ}
use tx_xrpl_token_migrator.Base.Str.{Str, codes}
use tx_xrpl_token_migrator.Base.Go.{Go, ok, err, ◌>>=◌, new_error}
use tx_xrpl_token_migrator.Sdk.{Sdk, Address}
use tx_xrpl_token_migrator.Xrpl.Rpc.Call.{wrap_err}
use tx_xrpl_token_migrator.Tx.Contract.Types.{DeployAndInstantiateConfig}
use tx_xrpl_token_migrator.Tx.Contract.Execute.{deploy, deploy_and_instantiate}
use tx_xrpl_token_migrator.Service.Clients.{World, ContractClient, new_deploy_contract_client}
use tx_xrpl_token_migrator.Cli.Flags.{
  Setting, FlagName, Flags, get_string, get_string_slice, get_int,
}
use tx_xrpl_token_migrator.Cli.Settings.{ServicesConfig, Outside, read_services_config}

-- `uint32(threshold)`
abbrev pub to_uint32 : ℤ → ℕ
to_uint32 (pos n) = n % 2 ^ 32
to_uint32 (negsuc n) = (2 ^ 32 - 1) - n % 2 ^ 32

module _ (S : Sdk) where
  -- The address of a text, with a message for the error.
  unfoldable pub address_of : Str → Str → Go Address
  address_of message text = elim (S.acc_address_from_bech32 text) [
    | none ↦ err (new_error message)
    | some a ↦ ok a
  ]

  -- `validateAccAddress`
  unfoldable pub validate_acc_address : Str → Go (Unit {0})
  unfolding address_of
  validate_acc_address address = address_of (codes "invalid account address") address >>= λ _. ok tt

  -- The loop over the trusted addresses.
  unfoldable pub validate_acc_addresses : List Str → Go (Unit {0})
  unfolding validate_acc_address
  validate_acc_addresses [] = ok tt
  validate_acc_addresses (address ∷ addresses) =
      validate_acc_address address >>= λ _. validate_acc_addresses addresses

  -- `sdkmath.NewIntFromString` is not part of the repository: none where it fails.
  module _ (new_int_from_string : Str → Option ℤ) (flags : Flags) where
    unfoldable pub trusted_addresses : Go (List Str)
    unfolding validate_acc_addresses
    trusted_addresses =
        get_string_slice flags FlagName.tx_contract_trusted_addresses >>= λ addresses.
        if length addresses == 0
        then err (new_error (codes "at least one trusted address must be specified"))
        else validate_acc_addresses addresses >>= λ _. ok addresses

    unfoldable pub owner_address : Go Str
    unfolding validate_acc_address
    owner_address = get_string flags FlagName.tx_contract_owner_address >>= λ address.
        validate_acc_address address >>= λ _. ok address

    unfoldable pub threshold_value : Go ℤ
    threshold_value = get_int flags FlagName.tx_contract_threshold >>= λ threshold.
        if ltb_ℤ (pos 0) threshold
        then ok threshold
        else err (new_error (codes "threshold must be greater than zero"))

    unfoldable pub min_amount_value : Go ℤ
    min_amount_value = get_string flags FlagName.tx_contract_min_amount >>= λ text.
        elim (new_int_from_string text) [
          | none ↦ err (new_error (codes "tx-contract-min-amount must be greater than zero"))
          | some amount ↦
              if ltb_ℤ (pos 0) amount
              then ok amount
              else err (new_error (codes "tx-contract-min-amount must be greater than zero"))
        ]

    unfoldable pub max_amount_value : ℤ → Go ℤ
    max_amount_value min_amount = get_string flags FlagName.tx_contract_max_amount >>= λ text.
        elim (new_int_from_string text) [
          | none ↦ err (
              new_error (
                codes
                  "tx-contract-max-amount must be greater or equal than tx-contract-min-amount"))
          | some amount ↦
              if ltb_ℤ amount min_amount
              then err (
                  new_error (
                    codes
                      "tx-contract-max-amount must be greater or equal than tx-contract-min-amount"))
              else ok amount
        ]

    -- The flags that are read and checked, and `deployCfg`.
    unfoldable pub deploy_cfg : Go DeployAndInstantiateConfig
    unfolding trusted_addresses owner_address threshold_value min_amount_value max_amount_value
    deploy_cfg = trusted_addresses >>= λ trusted. owner_address >>= λ owner.
        threshold_value >>= λ threshold. min_amount_value >>= λ min_amount.
        max_amount_value min_amount >>= λ max_amount. ok (record {
          owner = owner;
          admin = owner;
          trusted_addresses = trusted;
          threshold = to_uint32 threshold;
          min_amount = min_amount;
          max_amount = max_amount;
          xrpl_tokens = [];
          label = codes "bank_threshold_send";
        })

    -- The commands, with the keyring of the context that the command has, and the order in which
    -- the map of setters is iterated.
    module _ (W : World) (O : Outside) (client_query_context : Go W.Keyring)
        (order : List Setting) where
      -- `DeployAndInstantiateCmd`: the contract's address.
      unfoldable pub deploy_and_instantiate_cmd : Go Address
      unfolding deploy_cfg address_of read_services_config new_deploy_contract_client
          deploy_and_instantiate
      deploy_and_instantiate_cmd = read_services_config O flags order >>= λ cfg.
          deploy_cfg >>= λ config. client_query_context >>= λ keyring.
          new_deploy_contract_client S W cfg keyring >>= λ client.
          address_of (codes "invalid sender address") cfg.tx_sender_address >>= λ sender.
          deploy_and_instantiate S (W.chain client.client_ctx 0) client.cfg sender config

      -- `DeployCmd`: the id of the code.
      unfoldable pub deploy_cmd : Go ℕ
      unfolding address_of read_services_config new_deploy_contract_client deploy
      deploy_cmd = read_services_config O flags order >>= λ cfg. client_query_context >>= λ keyring.
          new_deploy_contract_client S W cfg keyring >>= λ client.
          address_of (codes "invalid sender address") cfg.tx_sender_address >>= λ sender.
          deploy S (W.chain client.client_ctx 0) client.cfg sender
