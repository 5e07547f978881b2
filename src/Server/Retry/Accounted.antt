-- ===== src/Server/Retry/Accounted.antt =====
-- The account of the retries and of a callback.
use railway.Base.{
  ℕ, zero, suc, ◌+◌, refl, Option, not, ◌||◌, ◌==◌, [], ◌∷◌, inl, inr, Bool-cases, Option-cases,
}
use railway.Base.Int.{ℤ}
use railway.Base.Result.{Result-cases}
use railway.Text.{Text, codes}
use railway.Config.{RetryConfig}
use railway.Server.Defs.{inc_retry, Parts, State, count_metric}
use railway.Server.Retry.{
  attempts_of, backoff_of, sleep_of, next_backoff, is_retryable, call, called, retry_loop,
  execute_mint_with_retry,
}
use railway.Server.Retry.Laws.{waited}
use railway.Server.Accounts.{executes, IsAccounted, unchanged, followed}

module _ (p : Parts) (cfg : RetryConfig) (cancelled : ℕ → ℤ → Option Text) (intent : Text) where
  -- A call that is counted as an attempt, with some result.
  attempted :
      (result : Text) (s : State p)
      → IsAccounted p s (count_metric (inc_retry result) (called p cfg cancelled intent s))
  attempted result s = record {
    calls = executes intent ∷ [];
    counted = inc_retry result ∷ [];
    chain_eq = refl;
    metrics_eq = refl;
    submits_eq = refl;
    executes_eq = refl;
  }

  waited-IsAccounted :
      (backoff : ℤ) (s : State p) → IsAccounted p s (waited p cfg cancelled intent backoff s)
  waited-IsAccounted backoff s =
      followed p s (count_metric (inc_retry (codes "retry")) (called p cfg cancelled intent s)) _
        (attempted (codes "retry") s) (unchanged p _ _ refl refl)

  retry_loop-IsAccounted :
      (rounds i : ℕ) (backoff : ℤ) (s : State p)
      → IsAccounted p s (retry_loop p cfg cancelled intent rounds i backoff s).1
  unfolding retry_loop
  retry_loop-IsAccounted zero i backoff s = unchanged p s s refl refl
  retry_loop-IsAccounted (suc rounds) i backoff s =
      elim (Result-cases (call p cfg cancelled intent s)) [
        | inr (resp, good) ↦ rw (good, retry_loop) (attempted (codes "success") s)
        | inl (e, bad) ↦ elim (Bool-cases (not (is_retryable e) || i == attempts_of cfg)) [
          | inl last ↦ rw (bad, last, retry_loop) (attempted (codes "failed") s)
          | inr more ↦ elim (Option-cases (cancelled i (sleep_of cfg backoff))) [
            | inr (e', ended) ↦ rw (bad, more, ended, retry_loop) (waited-IsAccounted backoff s)
            | inl on ↦
                rw (bad, more, on, retry_loop)
                  (followed p s (waited p cfg cancelled intent backoff s) _
                    (waited-IsAccounted backoff s)
                    (retry_loop-IsAccounted rounds (i + 1) (next_backoff cfg backoff)
                      (waited p cfg cancelled intent backoff s)))
          ]
        ]
      ]

  pub execute_mint_with_retry-IsAccounted :
      (s : State p) → IsAccounted p s (execute_mint_with_retry p cfg cancelled intent s).1
  unfolding execute_mint_with_retry
  execute_mint_with_retry-IsAccounted s =
      retry_loop-IsAccounted (attempts_of cfg) 1 (backoff_of cfg) s
