-- ===== src/Startup/Watch.antt =====
-- The health of a program that main started.
use railway.Base.{◌≡◌, refl, [], inl, inr, ◌⊎◌, false, Bool-cases, Option}
use railway.Base.Int.{ℤ}
use railway.Base.Result.{Result, ok, err, AllOk, AllOk-ok}
use railway.Text.{Text, codes, text_eq, text_eq_iff, is_empty, ne-nil_of_is_empty}
use railway.Http.{Request}
use railway.Config.{AppConfig}
use railway.Idempotency.File.{FileStore}
use railway.Idempotency.Postgres.{Opened, PostgresStore, opened, refused, ping_store}
use railway.Escrow.Eth
use railway.Escrow.Eth.{EthClient}
use railway.Escrow.Eth.Connect.{IsConnected, new_eth_client-IsConnected}
use railway.Escrow.Fake
use railway.Server.Defs.{State}
use railway.Server.Health.{handle_health}
use railway.Server.Health.Laws.{Passes, handle_health_lem}
use railway.Server.Serve.{Arrival, Outside, route, serve}
use railway.Server.Serve.Frame.{with_request_id_frame}
use railway.Startup.{
  Host, Service, postgres_backend, file_backend, choose_store, choose_client, eth_escrow, main,
}
use railway.Startup.Laws.{main-AllOk, eth_config}
use railway.Startup.Run.{checks_of, handle}
use mathlib.Core.Option.{map}

abbrev pub health_path : Text
health_path = codes "/api/v1/health"

health-ne-mint : text_eq health_path (codes "/api/v1/mint-intents") ≡ false
unfolding codes text_eq
health-ne-mint = refl

health-ne-callback : text_eq health_path (codes "/api/v1/callbacks/mpesa") ≡ false
unfolding codes text_eq
health-ne-callback = refl

health-ne-metrics : text_eq health_path (codes "/api/v1/metrics") ≡ false
unfolding codes text_eq
health-ne-metrics = refl

-- A request for the health of a service.
handle-health :
    (o : Outside) (svc : Service) (a : Arrival) (r : Request) (s : State svc.parts)
    → r.path ≡ health_path
    → handle o svc a r s
      ≡ handle_health svc.parts svc.config.service o.encode_health
          (checks_of o svc a.checks.latency_us s)
          s
unfolding handle serve route
handle-health o svc a r s path =
    let b = record a { checks = checks_of o svc a.checks.latency_us s } in
    rw (
      (with_request_id_frame b r).1,
      path,
      health-ne-mint,
      health-ne-callback,
      health-ne-metrics,
      (text_eq_iff health_path _).1 refl,
    )

-- Its Ping, if it has one, reports no error in any state.
abbrev Answers {ℓ} : {S : Type ℓ} → Option (S → Result (Unit {0})) → Type ℓ
Answers {S = S} ping = (s : S) → Passes (map (λ f. f s) ping)

module _ (h : Host) where
  abbrev pub DatabaseAnswers : AppConfig → Type 0
  DatabaseAnswers cfg = (cfg.database.url ≡ []) ⊎ ((db : h.pool.Db) → h.pool.ping db ≡ ok tt)

  abbrev pub NodeAnswers : AppConfig → Type 0
  NodeAnswers cfg =
      (cfg.chain.private_key ≡ [])
      ⊎ ((node : h.geth.Node) → (n : ℤ) × (h.geth.block_number node ≡ ok n))

  file_part-Answers : (s : Result (FileStore h.os)) → AllOk (λ b. Answers b.ping) (file_backend h s)
  file_part-Answers (ok f) = λ s e same. cc
  file_part-Answers (err m) = tt

  postgres_part-Answers :
      ((db : h.pool.Db) → h.pool.ping db ≡ ok tt)
      → (s : Opened h.pool.Db (PostgresStore h.pool))
      → AllOk (λ b. Answers b.ping) (postgres_backend h s)
  unfolding ping_store
  postgres_part-Answers up (opened p) = λ s e same. cc (up s.db)
  postgres_part-Answers up (refused e db) = tt

  choose_store-Answers :
      (cfg : AppConfig) → DatabaseAnswers cfg → AllOk (λ b. Answers b.ping) (choose_store h cfg)
  unfolding choose_store
  choose_store-Answers cfg up = elim (Bool-cases (is_empty cfg.database.url)) [
    | inl no_url ↦ rw no_url (file_part-Answers _)
    | inr url ↦ elim up [
      | inl nil ↦ absurd (ne-nil_of_is_empty _ url nil)
      | inr answers ↦ rw url (postgres_part-Answers answers _)
    ]
  ]

  eth_part-Answers :
      (cfg : AppConfig)
      → ((node : h.geth.Node) → (n : ℤ) × (h.geth.block_number node ≡ ok n))
      → (t : Result (EthClient h.geth × h.geth.Node))
      → AllOk (λ t. IsConnected h.geth (eth_config h cfg) t.0) t
      → AllOk (λ e. Answers e.ping) (eth_escrow h t)
  unfolding Eth.ping
  eth_part-Answers cfg up (ok (c, node)) made = λ s e same.
      let (opts, transacts, address, asks) = made in let (n, block) = up s in cc (asks, block)
  eth_part-Answers cfg up (err m) made = tt

  choose_client-Answers :
      (cfg : AppConfig) → NodeAnswers cfg → AllOk (λ e. Answers e.ping) (choose_client h cfg)
  unfolding choose_client Fake.ping
  choose_client-Answers cfg up = elim (Bool-cases (is_empty cfg.chain.private_key)) [
    | inl no_key ↦ rw no_key (λ s e same. cc)
    | inr key ↦ elim up [
      | inl nil ↦ absurd (ne-nil_of_is_empty _ key nil)
      | inr answers ↦
          rw key
            (eth_part-Answers cfg answers _ (new_eth_client-IsConnected h.geth (eth_config h cfg)))
    ]
  ]

  -- A service whose pings report no error answers 200.
  healthy :
      (o : Outside) (svc : Service) (a : Arrival) (r : Request) (s : State svc.parts)
      → Answers svc.db_health
      → Answers svc.rpc_health
      → r.path ≡ health_path
      → (handle o svc a r s).0.status ≡ 200
  healthy o svc a r s db rpc path = rw (handle-health o svc a r s path) (
      (handle_health_lem svc.parts svc.config.service o.encode_health
          (checks_of o svc a.checks.latency_us s) s).0.1
        (rpc s.chain, db s.records))

  -- A service that main starts answers 200 on the health endpoint, in every state, if it has no
  -- database or the database answers, and it has no key or the node answers.
  pub main-healthy :
      (svc : Service)
      → main h ≡ ok svc
      → DatabaseAnswers svc.config
      → NodeAnswers svc.config
      → (o : Outside) (a : Arrival) (r : Request) (s : State svc.parts) → r.path ≡ health_path
      → (handle o svc a r s).0.status ≡ 200
  main-healthy svc started db node o a r s path =
      let watched =
        AllOk-ok _ (main h) svc
          (main-AllOk h
            (λ svc.
              (DatabaseAnswers svc.config → Answers svc.db_health)
              × (NodeAnswers svc.config → Answers svc.rpc_health))
            (λ cfg b e loaded stored connected. (
              λ up. AllOk-ok _ (choose_store h cfg) b (choose_store-Answers cfg up) stored,
              λ up. AllOk-ok _ (choose_client h cfg) e (choose_client-Answers cfg up) connected,
            )))
          started in
      healthy o svc a r s (watched.0 db) (watched.1 node) path
