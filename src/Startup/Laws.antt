-- ===== src/Startup/Laws.antt =====
-- What main starts.
use railway.Base.{◌≡◌, ◌≢◌, refl, [], inl, inr, ◌⊎◌, Bool-cases}
use railway.Base.Result.{Result, ok, err, AllOk, AllOk-bind, AllOk-ok}
use railway.Text.{is_empty, nil_of_is_empty, ne-nil_of_is_empty}
use railway.Config
use railway.Config.{AppConfig}
use railway.Idempotency.{IsLawful}
use railway.Idempotency.File
use railway.Idempotency.File.{not_exist, file_store, file_store-IsLawful, FileStore}
use railway.Escrow.{Client}
use railway.Escrow.Fake.{fake_client}
use railway.Escrow.Eth.{EthClient, EthClientConfig, eth_client}
use railway.Escrow.Eth.Connect.{IsConnected, new_eth_client-IsConnected}
use railway.Startup.{
  Host, Backend, Escrow, Service, file_backend, choose_store, choose_client, eth_escrow, configured,
  service_of, file_part, fake_part, main,
}

module _ (h : Host) where
  configured_ok : (x : Result AppConfig) (cfg : AppConfig) → configured h x ≡ ok cfg → x ≡ ok cfg
  configured_ok (ok c) cfg e = e
  configured_ok (err m) cfg e = cc

  -- What holds of every choice of a configuration that loads holds of every service.
  pub main-AllOk {ℓ} :
      (P : Service → Type ℓ)
      → ((cfg : AppConfig) (b : Backend) (e : Escrow)
          → Config.load h.machine ≡ ok cfg
          → choose_store h cfg ≡ ok b
          → choose_client h cfg ≡ ok e
          → P (service_of h cfg b e))
      → AllOk P (main h)
  unfolding main
  main-AllOk P each = AllOk-bind P (configured h (Config.load h.machine)) _ (λ cfg loaded.
      AllOk-bind P (choose_store h cfg) _ (λ b stored.
        AllOk-bind P (choose_client h cfg) _ (λ e connected.
          each cfg b e (configured_ok (Config.load h.machine) cfg loaded) stored connected)))

  file_backend-AllOk :
      (s : Result (FileStore h.os)) → AllOk (λ b. IsLawful b.store) (file_backend h s)
  file_backend-AllOk (ok s) = file_store-IsLawful h.os
  file_backend-AllOk (err m) = tt

  choose_store-AllOk :
      (cfg : AppConfig) → cfg.database.url ≡ [] → AllOk (λ b. IsLawful b.store) (choose_store h cfg)
  unfolding choose_store
  choose_store-AllOk cfg no_url = rw no_url (file_backend-AllOk _)

  -- A service that main starts with a configuration without a database has the configuration that was
  -- loaded, and a store that keeps its promise.
  pub main-IsLawful :
      (svc : Service)
      → main h ≡ ok svc
      → svc.config.database.url ≡ []
      → (Config.load h.machine ≡ ok svc.config) × IsLawful svc.parts.store
  main-IsLawful svc started no_url =
      let (loaded, kept) =
        AllOk-ok _ (main h) svc
          (main-AllOk
            (λ svc.
              (Config.load h.machine ≡ ok svc.config)
              × (svc.config.database.url ≡ [] → IsLawful svc.parts.store))
            (λ cfg b e loaded stored connected. (
              loaded,
              λ no_url. AllOk-ok _ (choose_store h cfg) b (choose_store-AllOk cfg no_url) stored,
            )))
          started in
      (loaded, kept no_url)

  abbrev pub eth_config : AppConfig → EthClientConfig
  eth_config cfg = record {
    rpc_url = cfg.chain.rpc_url;
    private_key_hex = cfg.chain.private_key;
    contract_mint_escrow = cfg.deployment.contracts.mint_escrow;
  }

  -- The client of a service: the fake one where no key is configured, and otherwise one that can
  -- send transactions to the configured contract.
  abbrev pub IsChosen : AppConfig → Client → Type 1
  IsChosen cfg client =
      ((cfg.chain.private_key ≡ []) × (client ≡ fake_client h.sha256))
      ⊎ ((cfg.chain.private_key ≢ [])
          × ((c : EthClient h.geth) × (client ≡ eth_client h.geth c)
              × IsConnected h.geth (eth_config cfg) c))

  eth_escrow-AllOk :
      (cfg : AppConfig) (t : Result (EthClient h.geth × h.geth.Node))
      → cfg.chain.private_key ≢ []
      → AllOk (λ t. IsConnected h.geth (eth_config cfg) t.0) t
      → AllOk (λ e. IsChosen cfg e.client) (eth_escrow h t)
  eth_escrow-AllOk cfg (ok (c, node)) keyed made = inr (keyed, (c, refl, made))
  eth_escrow-AllOk cfg (err m) keyed made = tt

  choose_client-AllOk : (cfg : AppConfig) → AllOk (λ e. IsChosen cfg e.client) (choose_client h cfg)
  unfolding choose_client
  choose_client-AllOk cfg = elim (Bool-cases (is_empty cfg.chain.private_key)) [
    | inl no_key ↦ rw no_key (inl (nil_of_is_empty _ no_key, refl))
    | inr key ↦ rw key (
        eth_escrow-AllOk cfg _ (ne-nil_of_is_empty _ key)
          (new_eth_client-IsConnected h.geth (eth_config cfg)))
  ]

  -- A service that main starts has the fake client exactly where no key is configured, and otherwise a
  -- client that can send transactions, to the contract of the deployment.
  pub main-IsChosen : (svc : Service) → main h ≡ ok svc → IsChosen svc.config svc.parts.client
  main-IsChosen svc started =
      AllOk-ok _ (main h) svc
        (main-AllOk (λ svc. IsChosen svc.config svc.parts.client)
          (λ cfg b e loaded stored connected.
            AllOk-ok _ (choose_client h cfg) e (choose_client-AllOk cfg) connected))
        started

  -- A program without a database, without a key and without a file of records starts, once its
  -- configuration loads: with an empty file store and the fake client.
  pub main_starts :
      (cfg : AppConfig)
      → Config.load h.machine ≡ ok cfg
      → cfg.database.url ≡ []
      → cfg.chain.private_key ≡ []
      → h.os.read_file cfg.service.idempotency_store_path h.disk ≡ not_exist
      → main h
        ≡ ok (
            service_of h cfg
              (file_part h
                (record { path = cfg.service.idempotency_store_path; entries = []; disk = h.disk }))
              (fake_part h))
  unfolding main choose_store choose_client File.new_file_store File.load
  main_starts cfg loaded no_url no_key no_file = rw (loaded, no_url, no_file, no_key)
