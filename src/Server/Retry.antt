-- ===== src/Server/Retry.antt =====
-- executeMintWithRetry and isRetryable of api/internal/server/server.go.
pub mod Laws
pub mod Accounted
pub mod Backoff
pub mod Frame
pub mod Malformed
use railway.Base.{
  ℕ, zero, suc, ◌+◌, Bool, true, false, not, ◌&&◌, ◌||◌, Option, none, some, ◌∷◌, ◌==◌,
  if◌then◌else◌,
}
use railway.Base.Int.{ℤ, pos, negsuc, ltb_ℤ, mul64}
use railway.Base.Result.{Result, ok, err}
use railway.Text.{Text, codes, contains, to_lower}
use railway.Escrow.{ExecuteMintResponse}
use railway.Config.{RetryConfig}
use railway.Server.Defs.{Parts, State, inc_retry, count_metric}

unfoldable pub is_retryable : Text → Bool
is_retryable msg =
    if contains msg (codes "UserNotCompliant")
    then false
    else if contains (to_lower msg) (codes "invalid")
    then false
    else true

abbrev pub at_least_1 : ℤ → ℕ
at_least_1 (pos zero) = 1
at_least_1 (pos (suc n)) = suc n
at_least_1 (negsuc n) = 1

-- attempts, at least 1
abbrev pub attempts_of : RetryConfig → ℕ
attempts_of cfg = at_least_1 cfg.max_attempts

-- The first backoff: 500 milliseconds where none is configured.
abbrev pub backoff_of : RetryConfig → ℤ
backoff_of cfg = if ltb_ℤ (pos 0) cfg.initial_backoff then cfg.initial_backoff else pos 500000000

-- The time slept for a backoff: the greatest backoff bounds it, if there is one.
unfoldable pub sleep_of : RetryConfig → ℤ → ℤ
sleep_of cfg backoff =
    if ltb_ℤ (pos 0) cfg.max_backoff && ltb_ℤ cfg.max_backoff backoff
    then cfg.max_backoff
    else backoff

-- The backoff after a wait; the product is an int64's.
unfoldable pub next_backoff : RetryConfig → ℤ → ℤ
next_backoff cfg backoff =
    if ltb_ℤ (pos 1) cfg.backoff_multiplier then mul64 backoff cfg.backoff_multiplier else backoff

-- `cancelled i d` is ctx.Err() if the context ends before the i-th wait, of d, is over.
module _ (p : Parts) (cfg : RetryConfig) (cancelled : ℕ → ℤ → Option Text) (intent : Text) where
  abbrev pub call : State p → Result ExecuteMintResponse
  call s = (p.client.execute_mint intent s.chain).0

  abbrev pub called : State p → State p
  called s = record s { chain = (p.client.execute_mint intent s.chain).1 }

  abbrev pub sleep : ℤ → State p → State p
  sleep d s = record s { slept = d ∷ s.slept }

  -- The loop: the rounds left, the variables i and backoff, and the state.
  unfoldable pub retry_loop : ℕ → ℕ → ℤ → State p → Result Text × State p
  retry_loop zero i backoff s = (err (codes "exhausted retries"), s)
  retry_loop (suc rounds) i backoff s = elim (call s) [
    | ok resp ↦ (ok resp.tx_hash, count_metric (inc_retry (codes "success")) (called s))
    | err e ↦ elim (not (is_retryable e) || i == attempts_of cfg) [
      | true ↦ (err e, count_metric (inc_retry (codes "failed")) (called s))
      | false ↦
          let waiting =
            sleep (sleep_of cfg backoff) (count_metric (inc_retry (codes "retry")) (called s)) in
          elim (cancelled i (sleep_of cfg backoff)) [
            | some e' ↦ (err e', waiting)
            | none ↦ retry_loop rounds (i + 1) (next_backoff cfg backoff) waiting
          ]
    ]
  ]

  unfoldable pub execute_mint_with_retry : State p → Result Text × State p
  execute_mint_with_retry s = retry_loop (attempts_of cfg) 1 (backoff_of cfg) s
