-- ===== src/Startup.antt =====
-- main of api/cmd/server/main.go, up to the start of the server, and NewServer of
-- api/internal/server/server.go: the configuration, the choice of the store and of the escrow client,
-- and the server's health functions. An error ends the program with its message.
pub mod Laws
pub mod Run
pub mod Watch
use railway.Base.{[], ◌++◌, Option, none, some, if◌then◌else◌}
use railway.Base.Result.{Result, ok, err, ◌>>=◌}
use railway.Text.{Text, codes, is_empty}
use railway.Config
use railway.Config.{Machine, AppConfig}
use railway.Idempotency.{Store}
use railway.Idempotency.File.{Os, FileStore, new_file_store, file_store}
use railway.Idempotency.Postgres.{
  Pool, PostgresStore, Opened, opened, refused, new_postgres_store, postgres_store, ping_store,
  close_store,
}
use railway.Escrow.{Client}
use railway.Text.Print.{print_int}
use railway.Escrow.Fake
use railway.Escrow.Fake.{fake_client}
use railway.Escrow.Eth
use railway.Escrow.Eth.{Geth, EthClient, new_eth_client, eth_client}
use railway.Server.Defs.{FileSystem, Codec, Parts, State}

-- What the program finds around it.
pub record Host : Type 1 where
  pub machine : Machine
  pub os : Os
  pub disk : os.Disk
  pub pool : Pool
  pub geth : Geth
  pub sha256 : Text → Text
  pub files : FileSystem
  pub directory : files.Files
  pub codec : Codec

-- A store with its state, and the methods Ping and Close where its type has them.
pub record Backend : Type 1 where
  pub store : Store
  pub records : store.State
  pub ping : Option (store.State → Result (Unit {0}))
  pub close : Option (store.State → store.State)

-- A client with the chain behind it, and its method Ping.
pub record Escrow : Type 1 where
  pub client : Client
  pub chain : client.Chain
  pub ping : Option (client.Chain → Result (Unit {0}))

-- What main has once NewServer has returned: the server, with its health functions and the address it
-- listens on, and the closer of the store.
pub record Service : Type 1 where
  pub config : AppConfig
  pub parts : Parts
  pub state : State parts
  pub db_health : Option (parts.store.State → Result (Unit {0}))
  pub rpc_health : Option (parts.client.Chain → Result (Unit {0}))
  pub address : Text
  pub store_closer : Option (parts.store.State → parts.store.State)

abbrev pub listen_address : AppConfig → Text
listen_address cfg = codes ":" ++ print_int cfg.service.http_port

module _ (h : Host) where
  abbrev pub postgres_part : PostgresStore h.pool → Backend
  postgres_part s = record {
    store = postgres_store h.pool;
    records = s;
    ping = some (ping_store h.pool);
    close = some (close_store h.pool);
  }

  abbrev pub file_part : FileStore h.os → Backend
  file_part s = record { store = file_store h.os; records = s; ping = none; close = none }

  abbrev postgres_backend : Opened h.pool.Db (PostgresStore h.pool) → Result Backend
  postgres_backend (opened s) = ok (postgres_part s)
  postgres_backend (refused e db) = err (codes "postgres store error: " ++ e)

  abbrev file_backend : Result (FileStore h.os) → Result Backend
  file_backend (ok s) = ok (file_part s)
  file_backend (err e) = err (codes "idempotency store error: " ++ e)

  unfoldable pub choose_store : AppConfig → Result Backend
  choose_store cfg =
      if is_empty cfg.database.url
      then file_backend (new_file_store h.os cfg.service.idempotency_store_path h.disk)
      else postgres_backend (new_postgres_store h.pool cfg.database.url)

  abbrev pub fake_part : Escrow
  fake_part = record { client = fake_client h.sha256; chain = tt; ping = some (Fake.ping h.sha256) }

  abbrev pub eth_part : EthClient h.geth → h.geth.Node → Escrow
  eth_part c node = record {
    client = eth_client h.geth c;
    chain = node;
    ping = some (Eth.ping h.geth c);
  }

  abbrev eth_escrow : Result (EthClient h.geth × h.geth.Node) → Result Escrow
  eth_escrow (ok (c, node)) = ok (eth_part c node)
  eth_escrow (err e) = err (codes "escrow client error: " ++ e)

  unfoldable pub choose_client : AppConfig → Result Escrow
  choose_client cfg =
      if is_empty cfg.chain.private_key
      then ok fake_part
      else eth_escrow (
          new_eth_client h.geth (record {
            rpc_url = cfg.chain.rpc_url;
            private_key_hex = cfg.chain.private_key;
            contract_mint_escrow = cfg.deployment.contracts.mint_escrow;
          }))

  abbrev pub service_of : AppConfig → Backend → Escrow → Service
  service_of cfg b e = record {
    config = cfg;
    parts = record { store = b.store; client = e.client; files = h.files; codec = h.codec };
    state = record {
      records = b.records;
      chain = e.chain;
      files = h.directory;
      metrics = [];
      slept = [];
    };
    db_health = b.ping;
    rpc_health = e.ping;
    address = listen_address cfg;
    store_closer = b.close;
  }

  abbrev configured : Result AppConfig → Result AppConfig
  configured (ok cfg) = ok cfg
  configured (err e) = err (codes "config error: " ++ e)

  unfoldable pub main : Result Service
  main = configured (Config.load h.machine) >>= λ cfg.
      choose_store cfg >>= λ b. choose_client cfg >>= λ e. ok (service_of cfg b e)
