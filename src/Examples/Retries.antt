-- ===== src/Examples/Retries.antt =====
-- Retries, their waits, dead letters and the health endpoint.
use railway.Base.{◌-◌, ◌*◌, ◌^◌, ◌≡◌, refl, ◌↔◌, ◌⊎◌, none, some, [], ◌∷◌, arith}
use railway.Base.Int.{pos, negsuc}
use railway.Base.Result.{err}
use railway.Text.{Text, codes}
use railway.Server.Defs.{set_dlq_depth}
use railway.Server.Retry.{attempts_of, backoff_of, sleep_of, next_backoff, execute_mint_with_retry}
use railway.Server.Retry.Laws.{IsRun, sleeps, execute_mint_with_retry-IsRun}
use railway.Server.Retry.Backoff.{formula_waits, sleeps-eq-formula, sleep_of-next_backoff_overflow}
use railway.Server.Dlq.{file_path, current_dlq_depth}
use railway.Server.Health.{Checks, handle_health}
use railway.Server.Health.Laws.{Passes, handle_health_lem}
use railway.Examples.Setting.{code, parts, outside, service, retry, start}

execute_mint_with_retry-IsRun_example :
    IsRun parts retry
      (λ i d. none)
      (codes "9")
      (attempts_of retry)
      1
      (backoff_of retry)
      start
      (execute_mint_with_retry parts retry (λ i d. none) (codes "9") start)
execute_mint_with_retry-IsRun_example =
    execute_mint_with_retry-IsRun parts retry (λ i d. none) (codes "9") start

-- The five waits of the repository's seed, in nanoseconds, the newest first.
seed_waits :
    sleeps retry 5 (backoff_of retry) []
    ≡ pos 12016000000 ∷ pos 6008000000 ∷ pos 3004000000 ∷ pos 1502000000 ∷ pos 751000000 ∷ []
unfolding code
seed_waits = refl

sleeps-eq-formula_example :
    sleeps retry 5 (backoff_of retry) [] ≡ formula_waits 751000000 2 30000000000 0 5 []
sleeps-eq-formula_example =
    sleeps-eq-formula retry 751000000 2 30000000000 refl refl refl (omega arith) (omega arith)
      (omega arith) 5 [] (omega arith)

sleep_of-next_backoff_overflow_example :
    sleep_of retry (next_backoff retry (pos 6451000000000000000))
    ≡ negsuc (2 ^ 64 - 1 - 6451000000000000000 * 2)
sleep_of-next_backoff_overflow_example =
    sleep_of-next_backoff_overflow retry 6451000000000000000 2 refl (omega arith) (omega arith)
      (omega arith) (omega arith)

abbrev dead_letter : Text
dead_letter = file_path parts service (pos 100000000000) (codes "9")

dead_letter_name : dead_letter ≡ codes "dlq/100000000000-9.json"
unfolding code
dead_letter_name = refl

abbrev failing : Checks
failing = record { rpc = some (err (codes "refused")); latency_us = pos 0; database = none }

handle_health_lem_example :
    (((handle_health parts service outside.encode_health failing start).0.status ≡ 200)
      ↔ (Passes failing.rpc × Passes failing.database))
    × (((handle_health parts service outside.encode_health failing start).0.status ≡ 200)
        ⊎ ((handle_health parts service outside.encode_health failing start).0.status ≡ 503))
    × ((handle_health parts service outside.encode_health failing start).1
        ≡ record start { metrics = set_dlq_depth (current_dlq_depth parts service start) ∷ [] })
handle_health_lem_example = handle_health_lem parts service outside.encode_health failing start
