-- ===== src/Examples/Settings.antt =====
-- A configuration that loads.
use railway.Base.{◌*◌, ◌≡◌, refl, none, some, ◌++◌, arith, if◌then◌else◌}
use railway.Base.Int.{pos}
use railway.Base.Result.{ok}
use railway.Text.{codes, text_eq, is_digit}
use railway.Text.Print.{print_int}
use railway.Config.{
  AppConfig, Machine, load_seed, load_deployments, load, service_config, retry_config,
}
use railway.Config.Env.{Environment, env_or, env_or_int}
use railway.Config.Env.Laws.{env_or_int-print_int}
use railway.Config.Laws.{seed_path, deployments_path, load-exact}
use railway.Examples.Setting.{seed, config}

-- The skew is written with a unit.
abbrev environment : Environment
environment key =
    if text_eq key (codes "HMAC_CLOCK_SKEW_SECONDS")
    then some (print_int (pos 90) ++ codes "s")
    else none

env_or_int-print_int_example :
    env_or_int environment (codes "HMAC_CLOCK_SKEW_SECONDS") (pos 60) ≡ pos 90
unfolding codes text_eq is_digit
env_or_int-print_int_example =
    env_or_int-print_int environment (codes "HMAC_CLOCK_SKEW_SECONDS") (pos 60) (pos 90) (codes "s")
      refl refl refl

abbrev pub machine : Machine
machine = record {
  environment = environment;
  read_file = λ path. ok path;
  temp_path = λ name. codes "/tmp/" ++ name;
  decode_seed = λ raw. ok seed;
  decode_deployments = λ raw. ok config.deployment;
}

abbrev loaded : AppConfig
loaded = record config { service = service_config machine seed; retry = retry_config machine seed }

load_example : load machine ≡ ok loaded
unfolding load load_seed load_deployments env_or codes text_eq
load_example = refl

load-exact_example :
    (load_seed machine (seed_path machine) ≡ ok loaded.seed)
    × (load_deployments machine (deployments_path machine) ≡ ok loaded.deployment)
    × (loaded.service.idempotency_window ≡ pos (86400 * 1000000000))
    × (loaded.retry.initial_backoff ≡ pos (751 * 1000000))
    × (loaded.retry.max_backoff ≡ pos (30000 * 1000000))
    × (loaded.retry.max_attempts ≡ loaded.seed.retry.max_attempts)
    × (loaded.retry.backoff_multiplier ≡ loaded.seed.retry.backoff_multiplier)
load-exact_example =
    load-exact machine loaded 86400 751 30000 load_example refl refl refl (omega arith)
      (omega arith) (omega arith)
