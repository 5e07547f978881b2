-- ===== src/Examples/Startup.antt =====
-- A program that starts with a key and without a database.
use railway.Base.{◌≡◌, refl, [], none, some, if◌then◌else◌}
use railway.Base.Result.{ok}
use railway.Text.{codes, text_eq}
use railway.Config.{
  Machine, AppConfig, ContractAddresses, load, load_seed, load_deployments, service_config,
  retry_config,
}
use railway.Config.Env.{env_or}
use railway.Idempotency.{IsLawful}
use railway.Idempotency.File
use railway.Idempotency.File.{file_store}
use railway.Escrow.Eth.{EthClient, parse_private_key, new_eth_client}
use railway.Startup.{
  Host, Service, service_of, file_part, eth_part, choose_store, choose_client, main,
}
use railway.Startup.Laws.{IsChosen, main-IsLawful, main-IsChosen}
use railway.Startup.Run.{handle}
use railway.Startup.Watch.{main-healthy}
use railway.Http.{Request, no_body}
use railway.Base.Int.{pos}
use railway.Base.{inl, inr}
use railway.Examples.Setting.{outside, at, listed_files, copying_codec, seed, config}
use railway.Examples.Disk.{one_file}
use railway.Examples.Stores.{table}
use railway.Examples.Chain.{geth, client}

abbrev machine : Machine
machine = record {
  environment = λ key.
      if text_eq key (codes "CHAIN_PRIVATE_KEY")
      then some (codes "0xkey")
      else if text_eq key (codes "CHAIN_RPC_URL")
      then some (codes "http://node")
      else none;
  read_file = λ path. ok path;
  temp_path = λ name. name;
  decode_seed = λ raw. ok seed;
  decode_deployments = λ raw. ok (record config.deployment {
    contracts = record config.deployment.contracts { mint_escrow = codes "0xescrow" };
  });
}

abbrev host : Host
host = record {
  machine = machine;
  os = one_file;
  disk = none;
  pool = table;
  geth = geth;
  sha256 = λ s. s;
  files = listed_files;
  directory = [];
  codec = copying_codec;
}

abbrev contracts : ContractAddresses
contracts = record config.deployment.contracts { mint_escrow = codes "0xescrow" }

abbrev loaded : AppConfig
loaded = record config {
  deployment = record config.deployment { contracts = contracts };
  service = service_config machine seed;
  retry = retry_config machine seed;
  chain = record { rpc_url = codes "http://node"; private_key = codes "0xkey" };
}

abbrev connected : EthClient geth
connected = record client { address = geth.hex_to_address (codes "0xescrow") }

abbrev served : Service
served =
    service_of host loaded
      (file_part host (record { path = codes "fiatrails-idem.json"; entries = []; disk = none }))
      (eth_part host connected 0)

started : main host ≡ ok served
unfolding main choose_store choose_client load load_seed load_deployments service_config env_or
    codes text_eq File.load File.new_file_store new_eth_client parse_private_key
started = refl

-- The program of `host` has no database.
main-IsLawful_example : (load host.machine ≡ ok served.config) × IsLawful served.parts.store
main-IsLawful_example = main-IsLawful host served started refl

main-IsChosen_example : IsChosen host served.config served.parts.client
main-IsChosen_example = main-IsChosen host served started

abbrev health_request : Request
health_request = record {
  method = codes "GET";
  path = codes "/api/v1/health";
  headers = [];
  body = no_body;
}

main-healthy_example : (handle outside served (at 100) health_request served.state).0.status ≡ 200
main-healthy_example =
    main-healthy host served started (inl refl) (inr (λ node. (pos node, refl))) outside (at 100)
      health_request served.state refl
