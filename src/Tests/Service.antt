-- ===== src/Tests/Service.antt =====
-- A world for the clients and the services, and the services that are made in it.
use tx_xrpl_token_migrator.Base.{◌≡◌, refl, Bool, true, none, some, List, [], ◌∷◌}
use tx_xrpl_token_migrator.Base.Int.{pos}
use tx_xrpl_token_migrator.Base.Str.{Str, codes, str_eq}
use tx_xrpl_token_migrator.Base.Go.{ok}
use tx_xrpl_token_migrator.Tx.Contract.Types.{XrplToken}
use tx_xrpl_token_migrator.Tx.Contract.Cosmos.{Chain}
use tx_xrpl_token_migrator.Cli.Settings.{ServicesConfig, Outside, default_testnet_cfg}
use tx_xrpl_token_migrator.Service.Clients.{World, Context}
use tx_xrpl_token_migrator.Service.New.{
  Auditor, Services, FinderConfig, services_from, new_services,
}
use tx_xrpl_token_migrator.Service.New.Agree.{AreAgreed, services_agree}
use tx_xrpl_token_migrator.Tests.Samples.{ripple, sdk}
use tx_xrpl_token_migrator.Tests.Tx.{chain, contract_cfg}

abbrev pub outside : Outside
outside = record {
  chain_id_dev = codes "dev";
  chain_id_test = codes "test";
  chain_id_main = codes "main";
  parse_date = λ s. some (pos 5);
}

abbrev a_token : XrplToken
a_token = record {
  currency = codes "C";
  issuer = codes "I";
  activation_date = 3;
  multiplier = codes "1.5";
}

abbrev pub listed_chain : Chain
listed_chain = record chain {
  unmarshal_config = λ s. some (record contract_cfg { xrpl_tokens = a_token ∷ []; version = 4 });
}

-- A keyring is the name of its key; a client is the text that it was made from.
abbrev pub world : World
world = record {
  Keyring = Str;
  RpcClient = Str;
  GrpcClient = Str;
  register_metrics = ok tt;
  network_config_by_chain_id = λ id. ok (record { chain_id = id; denom = codes "utx" });
  new_client_from_node = λ url. ok url;
  parse_url = λ url. ok (record { scheme = codes "h"; host = []; opaque = codes "1" });
  has_grpc_codec = true;
  new_grpc_client = λ host tls. ok host;
  key_by_address = λ kr a. ok kr;
  export_priv_key_armor = λ kr name pass. ok name;
  new_in_memory = [];
  import_priv_key = λ kr name armor pass. ok armor;
  new_uuid = codes "u";
  chain = λ ctx n. listed_chain;
}

abbrev pub relayer_cfg : ServicesConfig
relayer_cfg = record (default_testnet_cfg outside) {
  tx_contract_address = codes "tc";
  tx_sender_address = codes "ts";
  tx_grpc_url = codes "h:1";
  prometheus_url = codes "p";
}

abbrev relayer_ctx : Context sdk world
relayer_ctx = record {
  chain_id = codes "test";
  keyring = codes "k";
  rpc_client = none;
  grpc_client = some (codes "h:1");
}

abbrev a_finder : FinderConfig
a_finder = record {
  xrpl_issuer = codes "I";
  xrpl_currency = codes "C";
  activation_date = pos 3_000_000_000;
  multiplier = codes "1.5";
  xrpl_history_scan_start_ledger = pos 20_000;
  xrpl_recent_scan_indexes_back = pos 30_000;
  xrpl_memo_suffix = codes "/coreum-testnet-1/v1";
  tx_denom = codes "utx";
  tx_decimals = 6;
}

abbrev an_auditor : Auditor
an_auditor = record {
  cfg = record {
    contract_address = codes "tc";
    tx_denom = codes "utx";
    tx_decimals = 6;
    xrpl_memo_suffix = codes "/coreum-testnet-1/v1";
    xrpl_tokens =
        record { xrpl_issuer = codes "I"; xrpl_currency = codes "C"; multiplier = codes "1.5" }
        ∷ [];
  };
  start_date = pos 1_733_011_200_000_000_000;
  xrpl_rpc_url = [];
}

abbrev made_services : Services sdk world
made_services =
    services_from ripple sdk world relayer_cfg (codes "utx") (codes "s") (codes "c") relayer_ctx
      (a_finder ∷ []) (record { current_version = 4 }) an_auditor

services_run : new_services ripple sdk world relayer_cfg (codes "k") true ≡ ok made_services
unfolding services_from new_services default_testnet_cfg str_eq tx_xrpl_token_migrator.Base.Int.◌*ℤ◌
    tx_xrpl_token_migrator.Base.Int.i64
services_run = refl

services_agree_example : AreAgreed ripple sdk world made_services
services_agree_example =
    services_agree ripple sdk world relayer_cfg (codes "k") true made_services (λ ctx n. refl)
      services_run
