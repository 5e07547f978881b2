-- ===== src/Server/Retry/Frame.antt =====
-- What the retry loop leaves alone.
use railway.Base.{ℕ, zero, suc, ◌+◌, ◌≡◌, refl, Option, arith}
use railway.Base.Int.{ℤ}
use railway.Text.{Text}
use railway.Config.{RetryConfig}
use railway.Server.Defs.{Parts, State}
use railway.Server.Retry.{
  attempts_of, backoff_of, next_backoff, retry_loop, execute_mint_with_retry,
}
use railway.Server.Retry.Laws.{waited}

module _ (p : Parts) (cfg : RetryConfig) (cancelled : ℕ → ℤ → Option Text) (intent : Text) where
  -- The two parts of a state that the loop does not touch.
  abbrev SameFrame : State p → State p → Type 0
  SameFrame t s = (t.records ≡ s.records) × (t.files ≡ s.files)

  retry_loop-SameFrame :
      (rounds i : ℕ) (backoff : ℤ) (s : State p)
      → SameFrame (retry_loop p cfg cancelled intent rounds i backoff s).1 s
  unfolding retry_loop
  retry_loop-SameFrame zero i backoff s = (refl, refl)
  retry_loop-SameFrame (suc rounds) i backoff s = ground (
    arith,
    retry_loop-SameFrame rounds (i + 1) (next_backoff cfg backoff)
        (waited p cfg cancelled intent backoff s),
  )

  pub execute_mint_with_retry_frame :
      (s : State p)
      → ((execute_mint_with_retry p cfg cancelled intent s).1.records ≡ s.records)
        × ((execute_mint_with_retry p cfg cancelled intent s).1.files ≡ s.files)
  unfolding execute_mint_with_retry
  execute_mint_with_retry_frame s = retry_loop-SameFrame (attempts_of cfg) 1 (backoff_of cfg) s
