-- ===== src/Config/Laws.antt =====
-- What a configuration that loads holds.
use railway.Base.{ℕ, ◌*◌, ◌^◌, ◌<◌, ◌≡◌, arith, inl, inr}
use railway.Base.Int.{pos, mul64-pos}
use railway.Base.Result.{ok, Result-cases}
use railway.Text.{Text, codes}
use railway.Config.{
  AppConfig, Machine, default_seed_path, default_deployments_path, load_seed, load_deployments,
  service_config, retry_config, load,
}
use railway.Config.Env.{env_or}

module _ (m : Machine) where
  abbrev pub seed_path : Text
  seed_path = env_or m.environment (codes "SEED_PATH") default_seed_path

  abbrev pub deployments_path : Text
  deployments_path = env_or m.environment (codes "DEPLOYMENTS_PATH") default_deployments_path

  load_parts :
      (cfg : AppConfig)
      → load m ≡ ok cfg
      → (load_seed m seed_path ≡ ok cfg.seed)
        × (load_deployments m deployments_path ≡ ok cfg.deployment)
        × (cfg.service ≡ service_config m cfg.seed)
        × (cfg.retry ≡ retry_config m cfg.seed)
  unfolding load
  load_parts cfg e = elim (Result-cases (load_seed m seed_path)) [
    | inl (x, bad) ↦ absurd (ground arith)
    | inr (seed, read) ↦ elim (Result-cases (load_deployments m deployments_path)) [
      | inl (x, bad) ↦ absurd (ground arith)
      | inr (deployment, found) ↦ ground arith
    ]
  ]

  -- A configuration that loads holds the seed and the deployment that its two files decode to. Where
  -- the seed's window and backoffs, in seconds and milliseconds, fit a Duration of nanoseconds, the
  -- window and the backoffs are those of the seed; the other retry numbers are the seed's.
  pub load-exact :
      (cfg : AppConfig) (window initial most : ℕ)
      → load m ≡ ok cfg
      → cfg.seed.timeouts.idempotency_window_secs ≡ pos window
      → cfg.seed.retry.initial_backoff_ms ≡ pos initial
      → cfg.seed.retry.max_backoff_ms ≡ pos most
      → window * 1000000000 < 2 ^ 63
      → initial * 1000000 < 2 ^ 63
      → most * 1000000 < 2 ^ 63
      → (load_seed m seed_path ≡ ok cfg.seed)
        × (load_deployments m deployments_path ≡ ok cfg.deployment)
        × (cfg.service.idempotency_window ≡ pos (window * 1000000000))
        × (cfg.retry.initial_backoff ≡ pos (initial * 1000000))
        × (cfg.retry.max_backoff ≡ pos (most * 1000000))
        × (cfg.retry.max_attempts ≡ cfg.seed.retry.max_attempts)
        × (cfg.retry.backoff_multiplier ≡ cfg.seed.retry.backoff_multiplier)
  unfolding service_config retry_config
  load-exact cfg window initial most e w i x hw hi hx =
      let (seed, deployment, service, retry) = load_parts cfg e in
      (
        seed,
        deployment,
        ground (arith, mul64-pos window 1000000000 hw),
        ground (arith, mul64-pos initial 1000000 hi),
        ground (arith, mul64-pos most 1000000 hx),
        ground arith,
        ground arith,
      )
