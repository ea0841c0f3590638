-- ===== src/Service/Clients.antt =====
-- The connections of relayer/service/service.go, and the clients for the commands.
use tx_xrpl_token_migrator.Base.{
  ℕ, ◌==◌, Bool, true, false, Option, none, some, ◌++◌, length, if◌then◌else◌,
}
use tx_xrpl_token_migrator.Base.Str.{Str, codes, str_eq}
use tx_xrpl_token_migrator.Base.Go.{Go, ok, err, ◌>>=◌, new_error}
use tx_xrpl_token_migrator.Sdk.{Sdk, Address}
use tx_xrpl_token_migrator.Xrpl.Rpc.Call.{wrap_err}
use tx_xrpl_token_migrator.Tx.Contract.Types.{ContractClientConfig, default_contract_client_config}
use tx_xrpl_token_migrator.Tx.Contract.Cosmos.{Chain}
use tx_xrpl_token_migrator.Cli.Settings.{ServicesConfig}

-- A network's configuration in the package coreum, and a parsed URL.
pub record Network : Type 0 where
  pub chain_id : Str
  pub denom : Str

pub record Url : Type 0 where
  pub scheme : Str
  pub host : Str
  pub opaque : Str

-- `client.Context`, with the connections that are set.
pub record ClientContext (Keyring RpcClient GrpcClient : Type 0) : Type 0 where
  pub chain_id : Str
  pub keyring : Keyring
  pub rpc_client : Option RpcClient
  pub grpc_client : Option GrpcClient

-- What is not part of the repository: the packages coreum, cosmos-sdk, grpc, net/url and prometheus.
pub record World : Type 1 where
  pub Keyring : Type 0
  pub RpcClient : Type 0
  pub GrpcClient : Type 0
  -- `Register` of all metrics with a new registry.
  pub register_metrics : Go (Unit {0})
  pub network_config_by_chain_id : Str → Go Network
  pub new_client_from_node : Str → Go RpcClient
  pub parse_url : Str → Go Url
  -- Whether the codec is a `GRPCCodecProvider`.
  pub has_grpc_codec : Bool
  -- `grpc.NewClient` of a host, with TLS or insecure.
  pub new_grpc_client : Str → Bool → Go GrpcClient
  -- A keyring: the name of an address's key, its export, an empty keyring in memory, the import.
  pub key_by_address : Keyring → Address → Go Str
  pub export_priv_key_armor : Keyring → Str → Str → Go Str
  pub new_in_memory : Keyring
  pub import_priv_key : Keyring → Str → Str → Str → Go Keyring
  pub new_uuid : Str
  -- The chain behind a context, when the contract is queried for the n-th time.
  pub chain : ClientContext Keyring RpcClient GrpcClient → ℕ → Chain

abbrev pub is_empty : Str → Bool
is_empty s = length s == 0

module _ (S : Sdk) (W : World) where
  abbrev pub Context : Type 0
  Context = ClientContext W.Keyring W.RpcClient W.GrpcClient

  -- `ContractClient`
  pub record ContractClient : Type 0 where
    pub cfg : ContractClientConfig
    pub client_ctx : Context

  -- `getGRPCClientConn`
  unfoldable pub get_grpc_client_conn : Str → Go W.GrpcClient
  unfolding wrap_err
  get_grpc_client_conn grpc_url =
      wrap_err (codes "failed to parse grpc URL") (W.parse_url grpc_url) >>= λ parsed_url.
      if W.has_grpc_codec
      then if str_eq parsed_url.scheme (codes "https")
        then wrap_err (codes "failed to create grpc client")
            (W.new_grpc_client parsed_url.host true)
        else wrap_err (codes "failed to create grpc client") (
            W.new_grpc_client
              (if is_empty parsed_url.host
                then parsed_url.scheme ++ (codes ":" ++ parsed_url.opaque)
                else parsed_url.host)
              false)
      else err (new_error (codes "failed to cast codec to codec.GRPCCodecProvider)"))

  -- A connection that is made where there is a URL for it.
  unfoldable pub connected : {C : Type 0} → Str → (Str → Go C) → Go (Option C)
  connected url connect =
      if is_empty url then ok none else (connect url >>= λ connection. ok (some connection))

  -- `buildTXClientContext`
  unfoldable pub build_tx_client_context : ServicesConfig → W.Keyring → Go Context
  unfolding connected get_grpc_client_conn wrap_err
  build_tx_client_context cfg kr = W.network_config_by_chain_id cfg.tx_chain_id >>= λ network.
      connected cfg.tx_rpc_url
        (λ url. wrap_err (codes "faild to create TX RPC client") (W.new_client_from_node url))
      >>= λ rpc_client. connected cfg.tx_grpc_url get_grpc_client_conn >>= λ grpc_client.
          ok (record {
            chain_id = network.chain_id;
            keyring = kr;
            rpc_client = rpc_client;
            grpc_client = grpc_client;
          })

  -- The address of the contract, which has to be set.
  unfoldable pub contract_address_of : ServicesConfig → Go Address
  contract_address_of cfg =
      if is_empty cfg.tx_contract_address
      then err (new_error (codes "contract address is required"))
      else elim (S.acc_address_from_bech32 cfg.tx_contract_address) [
        | none ↦ err (new_error (codes "invalid contract address"))
        | some a ↦ ok a
      ]

  -- `NewDeployContractClient`, without the logger.
  unfoldable pub new_deploy_contract_client : ServicesConfig → W.Keyring → Go ContractClient
  unfolding build_tx_client_context default_contract_client_config
  new_deploy_contract_client cfg kr = W.register_metrics >>= λ _.
      W.network_config_by_chain_id cfg.tx_chain_id >>= λ network.
      build_tx_client_context cfg kr >>= λ ctx.
      ok (record { cfg = default_contract_client_config none network.denom; client_ctx = ctx })

  -- `NewContractClient`, without the logger.
  unfoldable pub new_contract_client : ServicesConfig → W.Keyring → Go ContractClient
  unfolding contract_address_of build_tx_client_context default_contract_client_config
  new_contract_client cfg kr = W.register_metrics >>= λ _.
      W.network_config_by_chain_id cfg.tx_chain_id >>= λ network.
      contract_address_of cfg >>= λ contract_address. build_tx_client_context cfg kr >>= λ ctx.
      ok (record {
        cfg = default_contract_client_config (some contract_address) network.denom;
        client_ctx = ctx;
      })
