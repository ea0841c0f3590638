-- ===== src/Cli/Commands/Opened.antt =====
-- The client that the commands on the contract open, and the messages built with it.
use tx_xrpl_token_migrator.Base.{
  ◌≡◌, ap, sym, subst, ◌∙◌, Bool, true, false, inl, inr, some, List, [], Option-cases,
  if◌then◌else◌,
}
use tx_xrpl_token_migrator.Base.Str.{Str, codes}
use tx_xrpl_token_migrator.Base.Go.{
  Go, ok, err, >>=-eq-ok, ok_injective, err_not_ok, Error, new_error,
}
use tx_xrpl_token_migrator.Sdk.{Sdk, Address}
use tx_xrpl_token_migrator.Xrpl.Rpc.Call.{wrap_err, wrap_err-eq-ok}
use tx_xrpl_token_migrator.Tx.Contract.Types.{
  XrplToken, ExecMethod, ContractClientConfig, default_contract_client_config,
}
use tx_xrpl_token_migrator.Tx.Contract.Cosmos.{Chain, Msg}
use tx_xrpl_token_migrator.Tx.Contract.Execute.{
  address_or_error, build_execute_with_funds, build_add_xrpl_tokens_transaction,
}
use tx_xrpl_token_migrator.Service.Clients.{
  World, ContractClient, is_empty, build_tx_client_context, contract_address_of,
  new_contract_client,
}
use tx_xrpl_token_migrator.Cli.Flags.{Setting, Flags}
use tx_xrpl_token_migrator.Cli.Settings.{ServicesConfig, Outside, read_services_config}
use tx_xrpl_token_migrator.Cli.Deploy.{address_of}
use tx_xrpl_token_migrator.Cli.Commands.{opened}

pub address_given :
    (S : Sdk) (message text : Str) (a : Address)
    → address_of S message text ≡ ok a
    → S.acc_address_from_bech32 text ≡ some a
unfolding address_of
address_given S message text a h = elim (Option-cases (S.acc_address_from_bech32 text)) [
  | inl n ↦ absurd (err_not_ok _ (rw (n, address_of) at h))
  | inr (b, e) ↦ e ∙ ap some (ok_injective (rw (e, address_of) at h))
]

guarded :
    (b : Bool) (e : Error) (rest : Go Address) (a : Address)
    → (if b then err e else rest) ≡ ok a
    → rest ≡ ok a
guarded true e rest a h = absurd (err_not_ok e h)
guarded false e rest a h = h

contract_given :
    (S : Sdk) (W : World) (cfg : ServicesConfig) (a : Address)
    → contract_address_of S W cfg ≡ ok a
    → S.acc_address_from_bech32 cfg.tx_contract_address ≡ some a
unfolding contract_address_of address_of
contract_given S W cfg a h =
    address_given S (codes "invalid contract address") cfg.tx_contract_address a (
      guarded (is_empty cfg.tx_contract_address) (new_error (codes "contract address is required"))
        _ a h)

-- A message is built for the contract of the client.
pub message_built :
    (S : Sdk) (C : Chain) (cfg : ContractClientConfig) (sender contract : Address)
    (tokens : List XrplToken) (msg : Msg)
    → cfg.contract_address ≡ some contract
    → build_add_xrpl_tokens_transaction S C cfg sender tokens ≡ ok msg
    → (payload : Str) × (C.marshal_exec (ExecMethod.add_xrpl_tokens tokens) ≡ ok payload)
      × (msg
          ≡ Msg.msg_execute_contract
              (S.address_string sender)
              (S.address_string contract)
              payload
              [])
unfolding build_add_xrpl_tokens_transaction build_execute_with_funds address_or_error
message_built S C cfg sender contract tokens msg at_address h =
    let request = ExecMethod.add_xrpl_tokens tokens in
    let built =
      wrap_err-eq-ok (codes "failed to build tx for add_xrpl_tokens Method")
        (build_execute_with_funds S C cfg sender [] request) h in
    let (payload, marshalled, made) =
      >>=-eq-ok (wrap_err (codes "can't marshal payload") (C.marshal_exec request)) _
        (rw (at_address, build_execute_with_funds, address_or_error) at built) in
    (payload, wrap_err-eq-ok (codes "can't marshal payload") _ marshalled, sym (ok_injective made))

module _ (S : Sdk) (W : World) (O : Outside) (flags : Flags) (order : List Setting)
    (client_query_context : Go W.Keyring) where
  -- The client is that of the contract of the configuration.
  pub record IsOpened (cfg : ServicesConfig) (client : ContractClient S W) : Type 0 where
    pub configured : read_services_config O flags order ≡ ok cfg
    pub contract : Address
    pub given : S.acc_address_from_bech32 cfg.tx_contract_address ≡ some contract
    pub used : client.cfg.contract_address ≡ some contract

  client_used :
      (cfg : ServicesConfig) (keyring : W.Keyring) (client : ContractClient S W)
      → new_contract_client S W cfg keyring ≡ ok client
      → (contract : Address) × (S.acc_address_from_bech32 cfg.tx_contract_address ≡ some contract)
        × (client.cfg.contract_address ≡ some contract)
  unfolding new_contract_client default_contract_client_config
  client_used cfg keyring client h =
      let (u, registered, h1) = >>=-eq-ok W.register_metrics _ h in
      let (network, net, h2) = >>=-eq-ok (W.network_config_by_chain_id cfg.tx_chain_id) _ h1 in
      let (contract, at_address, h3) = >>=-eq-ok (contract_address_of S W cfg) _ h2 in
      let (ctx, connection, h4) = >>=-eq-ok (build_tx_client_context S W cfg keyring) _ h3 in
      (
        contract,
        contract_given S W cfg contract at_address,
        ap (λ (c : ContractClient S W). c.cfg.contract_address) (sym (ok_injective h4)),
      )

  pub opened_gives :
      (cfg : ServicesConfig) (client : ContractClient S W)
      → opened S W O flags order client_query_context ≡ ok (cfg, client)
      → IsOpened cfg client
  unfolding opened
  opened_gives cfg client h =
      let (cfg', configured, h1) = >>=-eq-ok (read_services_config O flags order) _ h in
      let (keyring, kept, h2) = >>=-eq-ok client_query_context _ h1 in
      let (client', made, h3) = >>=-eq-ok (new_contract_client S W cfg' keyring) _ h2 in
      let (contract, given, used) = client_used cfg' keyring client' made in
      subst (λ (p : ServicesConfig × ContractClient S W). IsOpened p.0 p.1) (ok_injective h3)
        (record { configured = configured; contract = contract; given = given; used = used })
