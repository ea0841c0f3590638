-- ===== src/Cli/Commands/Generates.antt =====
-- The transaction that `BuildAddXRPLTokensTransactionCmd` generates.
use tx_xrpl_token_migrator.Base.{◌≡◌, refl, ap, sym, subst, ◌∙◌, some, List, [], ◌∷◌}
use tx_xrpl_token_migrator.Base.Str.{Str, codes}
use tx_xrpl_token_migrator.Base.Go.{Go, ok, >>=-eq-ok, ok_injective}
use tx_xrpl_token_migrator.Sdk.{Sdk, Address}
use tx_xrpl_token_migrator.Xrpl.Rpc.Call.{wrap_err}
use tx_xrpl_token_migrator.Tx.Contract.Types.{XrplToken, ExecMethod}
use tx_xrpl_token_migrator.Tx.Contract.Cosmos.{Msg}
use tx_xrpl_token_migrator.Tx.Contract.Execute.{build_add_xrpl_tokens_transaction}
use tx_xrpl_token_migrator.Tx.Contract.Estimate.{Estimator, estimate_execute_messages}
use tx_xrpl_token_migrator.Service.Clients.{World, ContractClient, Context}
use tx_xrpl_token_migrator.Cli.Flags.{Setting, FlagName, FlagValue, Flags, get_string_slice}
use tx_xrpl_token_migrator.Cli.Settings.{ServicesConfig, Outside, read_services_config}
use tx_xrpl_token_migrator.Cli.Token.{parse_tokens}
use tx_xrpl_token_migrator.Cli.Token.Exact.{AreTokenTexts, tokens_exact}
use tx_xrpl_token_migrator.Cli.Deploy.{address_of}
use tx_xrpl_token_migrator.Cli.Flags.Reads.{slice_iff}
use tx_xrpl_token_migrator.Cli.Commands.Opened.{
  address_given, message_built, IsOpened, opened_gives,
}
use tx_xrpl_token_migrator.Cli.Commands.{
  GeneratedTx, opened, opened_signer, generated, build_add_xrpl_tokens_cmd,
}

module _ (S : Sdk) (W : World) (O : Outside) (flags : Flags) (order : List Setting)
    (client_query_context : Go W.Keyring) where
  module _ (estimator : Context S W → Estimator) (new_factory_cli : Go (Unit {0})) where
    -- The transaction adds the tokens of the flag to the contract of the configuration.
    pub record AddsTokens (tx : GeneratedTx) : Type 0 where
      pub cfg : ServicesConfig
      pub configured : read_services_config O flags order ≡ ok cfg
      pub client : ContractClient S W
      pub contract : Address
      pub contract_given : S.acc_address_from_bech32 cfg.tx_contract_address ≡ some contract
      pub sender : Address
      pub sender_given : S.acc_address_from_bech32 cfg.tx_sender_address ≡ some sender
      pub texts : List Str
      pub tokens : List XrplToken
      pub flagged : flags FlagName.xrpl_token ≡ some (FlagValue.texts texts)
      pub read : AreTokenTexts texts tokens
      pub payload : Str
      pub marshalled :
          (W.chain client.client_ctx 0).marshal_exec (ExecMethod.add_xrpl_tokens tokens)
          ≡ ok payload
      pub message :
          tx.msgs
          ≡ Msg.msg_execute_contract
              (S.address_string sender)
              (S.address_string contract)
              payload
              []
            ∷ []
      pub estimated :
          estimate_execute_messages S (estimator client.client_ctx) client.cfg sender tx.msgs
          ≡ ok (tx.fees, tx.gas)
      pub chained : tx.chain_id ≡ cfg.tx_chain_id

    signer-IsOpened :
        (cfg : ServicesConfig) (client : ContractClient S W) (sender : Address)
        → opened_signer S W O flags order client_query_context estimator new_factory_cli
          ≡ ok (cfg, client, sender)
        → IsOpened S W O flags order client_query_context cfg client
          × (S.acc_address_from_bech32 cfg.tx_sender_address ≡ some sender)
    unfolding opened_signer
    signer-IsOpened cfg client sender h =
        let ((cfg', client'), begun, h1) =
          >>=-eq-ok (opened S W O flags order client_query_context) _ h in
        let (sender', given, h2) =
          >>=-eq-ok (address_of S (codes "invalid signer address") cfg'.tx_sender_address) _ h1 in
        subst
          (λ (p : ServicesConfig × ContractClient S W × Address).
            IsOpened S W O flags order client_query_context p.0 p.1
            × (S.acc_address_from_bech32 p.0.tx_sender_address ≡ some p.2))
          (ok_injective h2)
          (
            opened_gives S W O flags order client_query_context cfg' client' begun,
            address_given S (codes "invalid signer address") cfg'.tx_sender_address sender' given,
          )

    tx_generated :
        (cfg : ServicesConfig) (client : ContractClient S W) (sender : Address) (msgs : List Msg)
        (tx : GeneratedTx)
        → generated S W O flags order client_query_context estimator new_factory_cli cfg client
            sender msgs
          ≡ ok tx
        → (tx.msgs ≡ msgs)
          × (tx.chain_id ≡ cfg.tx_chain_id)
          × (estimate_execute_messages S (estimator client.client_ctx) client.cfg sender msgs
              ≡ ok (tx.fees, tx.gas))
    unfolding generated
    tx_generated cfg client sender msgs tx h =
        let ((fees, gas), estimated, h1) =
          >>=-eq-ok
            (estimate_execute_messages S (estimator client.client_ctx) client.cfg sender msgs) _
            h in
        let (u, factory, h2) =
          >>=-eq-ok (wrap_err (codes "failed to create tx factory") new_factory_cli) _ h1 in
        let e = ok_injective h2 in
        (
          ap (λ (t : GeneratedTx). t.msgs) (sym e),
          ap (λ (t : GeneratedTx). t.chain_id) (sym e),
          estimated ∙ ap (λ (t : GeneratedTx). ok (t.fees, t.gas)) e,
        )

    -- Where `BuildAddXRPLTokensTransactionCmd` generates a transaction, its one message is an
    -- execution of the contract that the configuration names, by the configured sender and with no
    -- funds, whose payload are the tokens that the flag's values are texts of, in order; its fee and
    -- its gas are the estimate for this message, and its chain is that of the configuration.
    pub add_tokens_generates :
        (tx : GeneratedTx)
        → build_add_xrpl_tokens_cmd S W O flags order client_query_context estimator new_factory_cli
          ≡ ok tx
        → AddsTokens tx
    unfolding build_add_xrpl_tokens_cmd opened_signer
    add_tokens_generates tx h =
        let ((cfg, client, sender), signer, h1) =
          >>=-eq-ok (opened_signer S W O flags order client_query_context estimator new_factory_cli)
            _ h in
        let (texts, got, h2) = >>=-eq-ok (get_string_slice flags FlagName.xrpl_token) _ h1 in
        let (tokens, parsed, h3) = >>=-eq-ok (parse_tokens texts) _ h2 in
        let (msg, built, h4) =
          >>=-eq-ok
            (build_add_xrpl_tokens_transaction S (W.chain client.client_ctx 0) client.cfg sender
              tokens)
            _ h3 in
        let (one, chained, estimated) = tx_generated cfg client sender (msg ∷ []) tx h4 in
        let (begun, sender_given) = signer-IsOpened cfg client sender signer in
        let (payload, marshalled, made) =
          message_built S (W.chain client.client_ctx 0) client.cfg sender begun.contract tokens msg
            begun.used built in
        record {
          cfg = cfg;
          configured = begun.configured;
          client = client;
          contract = begun.contract;
          contract_given = begun.given;
          sender = sender;
          sender_given = sender_given;
          texts = texts;
          tokens = tokens;
          flagged = (slice_iff flags FlagName.xrpl_token _ texts refl).0 got;
          read = (tokens_exact texts tokens).0 parsed;
          payload = payload;
          marshalled = marshalled;
          message = one ∙ ap (λ m. m ∷ []) made;
          estimated =
              subst
                (λ msgs.
                  estimate_execute_messages S (estimator client.client_ctx) client.cfg sender msgs
                  ≡ ok (tx.fees, tx.gas))
                (sym one) estimated;
          chained = chained;
        }
