-- ===== src/Config.antt =====
-- api/internal/config/config.go: the configuration and how it is loaded.
pub mod Defs
pub mod Env
pub mod Laws
pub use Defs.*
use railway.Base.{if◌then◌else◌, ◌++◌}
use railway.Base.Int.{ℤ, pos, mul64}
use railway.Base.Result.{Result, ok, err}
use railway.Text.{Text, codes}
use railway.Time.{second, millisecond}
use Env.{Environment, env_or, env_or_int}

-- What the configuration is read from: the environment, the files, the path of a file in the temporary
-- directory, and json.Unmarshal at the two types.
pub record Machine : Type 0 where
  pub environment : Environment
  pub read_file : Text → Result Text
  pub temp_path : Text → Text
  pub decode_seed : Text → Result SeedConfig
  pub decode_deployments : Text → Result DeploymentConfig

abbrev pub default_seed_path : Text
default_seed_path = codes "../seed.json"

abbrev pub default_deployments_path : Text
default_deployments_path = codes "../deployments.json"

abbrev pub default_dlq_path : Text
default_dlq_path = codes "../dlq"

module _ (m : Machine) where
  abbrev decoded {ℓ} : {A : Type ℓ} → (Text → Result A) → Result Text → Result A
  decoded decode (err e) = err e
  decoded decode (ok raw) = decode raw

  unfoldable pub load_seed : Text → Result SeedConfig
  load_seed path = decoded m.decode_seed (m.read_file path)

  unfoldable pub load_deployments : Text → Result DeploymentConfig
  load_deployments path = decoded m.decode_deployments (m.read_file path)

  unfoldable pub service_config : SeedConfig → ServiceConfig
  service_config seed = record {
    http_port = env_or_int m.environment (codes "API_HTTP_PORT") (pos 3000);
    hmac_clock_skew =
        mul64 (env_or_int m.environment (codes "HMAC_CLOCK_SKEW_SECONDS") (pos 60)) second;
    idempotency_window = mul64 seed.timeouts.idempotency_window_secs second;
    idempotency_store_path =
        env_or m.environment (codes "IDEMPOTENCY_STORE_PATH")
          (m.temp_path (codes "fiatrails-idem.json"));
    dlq_path = env_or m.environment (codes "DLQ_PATH") default_dlq_path;
  }

  unfoldable pub retry_config : SeedConfig → RetryConfig
  retry_config seed = record {
    max_attempts = seed.retry.max_attempts;
    initial_backoff = mul64 seed.retry.initial_backoff_ms millisecond;
    max_backoff = mul64 seed.retry.max_backoff_ms millisecond;
    backoff_multiplier = seed.retry.backoff_multiplier;
  }

  abbrev assembled : SeedConfig → DeploymentConfig → AppConfig
  assembled seed deployment = record {
    seed = seed;
    deployment = deployment;
    service = service_config seed;
    retry = retry_config seed;
    chain = record {
      rpc_url = env_or m.environment (codes "CHAIN_RPC_URL") seed.chain.rpc_url;
      private_key = env_or m.environment (codes "CHAIN_PRIVATE_KEY") (codes "");
    };
    database = record { url = env_or m.environment (codes "DATABASE_URL") (codes "") };
  }

  abbrev with_deployments : SeedConfig → Result DeploymentConfig → Result AppConfig
  with_deployments seed (err e) = err (codes "load deployments: " ++ e)
  with_deployments seed (ok deployment) = ok (assembled seed deployment)

  abbrev with_seed : Text → Result SeedConfig → Result AppConfig
  with_seed deployments_path (err e) = err (codes "load seed: " ++ e)
  with_seed deployments_path (ok seed) = with_deployments seed (load_deployments deployments_path)

  unfoldable pub load : Result AppConfig
  load =
      let seed_path = env_or m.environment (codes "SEED_PATH") default_seed_path in
      let deployments_path =
        env_or m.environment (codes "DEPLOYMENTS_PATH") default_deployments_path in
      with_seed deployments_path (load_seed seed_path)
