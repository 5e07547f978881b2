-- ===== src/Config/Defs.antt =====
-- The types of api/internal/config/config.go. An int or int64 is an integer, a time.Duration one of
-- nanoseconds.
use railway.Base.{Bool}
use railway.Base.Int.{ℤ}
use railway.Text.{Text}

pub record SeedChain : Type 0 where
  pub chain_id : ℤ
  pub rpc_url : Text
  pub block_time : ℤ

pub record Stablecoin : Type 0 where
  pub symbol : Text
  pub name : Text
  pub decimals : ℤ

pub record CountryToken : Type 0 where
  pub symbol : Text
  pub name : Text
  pub country_code : Text
  pub decimals : ℤ

pub record Tokens : Type 0 where
  pub stablecoin : Stablecoin
  pub country : CountryToken

pub record Secrets : Type 0 where
  pub hmac_salt : Text
  pub idempotency_key_salt : Text
  pub mpesa_webhook_secret : Text

pub record Compliance : Type 0 where
  pub max_risk_score : ℤ
  pub require_attestation : Bool
  pub min_attestation_age : ℤ

pub record Limits : Type 0 where
  pub min_mint_amount : Text
  pub max_mint_amount : Text
  pub daily_mint_limit : Text

pub record SeedRetry : Type 0 where
  pub max_attempts : ℤ
  pub initial_backoff_ms : ℤ
  pub max_backoff_ms : ℤ
  pub backoff_multiplier : ℤ

pub record Timeouts : Type 0 where
  pub rpc_timeout_ms : ℤ
  pub webhook_timeout_ms : ℤ
  pub idempotency_window_secs : ℤ

pub record SeedConfig : Type 0 where
  pub candidate_id : Text
  pub chain : SeedChain
  pub tokens : Tokens
  pub secrets : Secrets
  pub compliance : Compliance
  pub limits : Limits
  pub retry : SeedRetry
  pub timeouts : Timeouts

pub record ContractAddresses : Type 0 where
  pub usd_stablecoin : Text
  pub country_token : Text
  pub user_registry : Text
  pub compliance_manager : Text
  pub mint_escrow : Text

pub record DeploymentConfig : Type 0 where
  pub chain_id : ℤ
  pub deployer : Text
  pub admin : Text
  pub executor : Text
  pub contracts : ContractAddresses

pub record ServiceConfig : Type 0 where
  pub http_port : ℤ
  pub hmac_clock_skew : ℤ
  pub idempotency_window : ℤ
  pub idempotency_store_path : Text
  pub dlq_path : Text

pub record RetryConfig : Type 0 where
  pub max_attempts : ℤ
  pub initial_backoff : ℤ
  pub max_backoff : ℤ
  pub backoff_multiplier : ℤ

pub record ChainConfig : Type 0 where
  pub rpc_url : Text
  pub private_key : Text

pub record DatabaseConfig : Type 0 where
  pub url : Text

pub record AppConfig : Type 0 where
  pub seed : SeedConfig
  pub deployment : DeploymentConfig
  pub service : ServiceConfig
  pub retry : RetryConfig
  pub chain : ChainConfig
  pub database : DatabaseConfig
