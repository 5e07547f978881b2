-- ===== src/Server/Retry/Laws.antt =====
-- How often the retry loop calls the escrow, and what it returns.
use railway.Base.{
  ℕ, zero, suc, ◌+◌, ◌<◌, ◌≡◌, refl, ◌⊎◌, inl, inr, true, false, not, ◌||◌, Option, none, some,
  List, ◌∷◌, ◌==◌, arith, sym, subst, ◌≢◌, Bool-cases, Option-cases,
}
use railway.Base.Int.{ℤ, pos, negsuc}
use railway.Base.Result.{Result, ok, err, Result-cases}
use railway.Text.{Text, codes}
use railway.Escrow.{Client, ExecuteMintResponse}
use railway.Config.{RetryConfig}
use railway.Server.Defs.{Parts, State, inc_retry, count_metric}
use railway.Server.Retry.{
  is_retryable, at_least_1, attempts_of, backoff_of, sleep_of, next_backoff, call, called, sleep,
  retry_loop, execute_mint_with_retry,
}

attempts_pred : (z : ℤ) → (n : ℕ) × (at_least_1 z ≡ suc n)
attempts_pred (pos zero) = (0, refl)
attempts_pred (pos (suc n)) = (n, refl)
attempts_pred (negsuc n) = (0, refl)

pub attempts-suc : (cfg : RetryConfig) → (n : ℕ) × (attempts_of cfg ≡ suc n)
attempts-suc cfg = attempts_pred cfg.max_attempts

-- `Failed client intent k c d`: k calls from the chain c have failed with retryable errors and led to
-- the chain d.
pub data Failed (client : Client) (intent : Text) : ℕ → client.Chain → client.Chain → Type 0 where
  not_yet : {c : client.Chain} → Failed client intent zero c c
  once_more :
      {k : ℕ} {c c' d : client.Chain} (e : Text)
      → client.execute_mint intent c ≡ (err e, c')
      → is_retryable e ≡ true
      → Failed client intent k c' d
      → Failed client intent (suc k) c d

-- The arguments of the first k waits from a backoff, before `acc`, the newest first.
abbrev pub sleeps : RetryConfig → ℕ → ℤ → List ℤ → List ℤ
sleeps cfg zero backoff acc = acc
sleeps cfg (suc k) backoff acc =
    sleeps cfg k (next_backoff cfg backoff) (sleep_of cfg backoff ∷ acc)

module _ (p : Parts) (cfg : RetryConfig) (cancelled : ℕ → ℤ → Option Text) (intent : Text) where
  -- How a run of the loop ends, after k failures and one more call with the result `last`.
  pub data Ends (rounds i k : ℕ) (backoff : ℤ) (s : State p) (out : Result Text × State p)
      : Result ExecuteMintResponse → Type 0 where
    minted :
        (resp : ExecuteMintResponse)
        → out.0 ≡ ok resp.tx_hash
        → out.1.slept ≡ sleeps cfg k backoff s.slept
        → Ends rounds i k backoff s out (ok resp)
    gave_up :
        (e : Text)
        → (is_retryable e ≡ false) ⊎ (suc k ≡ rounds)
        → out.0 ≡ err e
        → out.1.slept ≡ sleeps cfg k backoff s.slept
        → Ends rounds i k backoff s out (err e)
    interrupted :
        (e m : Text) (d : ℤ)
        → is_retryable e ≡ true
        → suc k < rounds
        → cancelled (i + k) d ≡ some m
        → out.0 ≡ err m
        → out.1.slept ≡ d ∷ sleeps cfg k backoff s.slept
        → Ends rounds i k backoff s out (err e)

  abbrev pub IsRun : ℕ → ℕ → ℤ → State p → Result Text × State p → Type 0
  IsRun rounds i backoff s out =
      (k : ℕ) × (c : p.client.Chain) × (last : Result ExecuteMintResponse) × (k < rounds)
      × Failed p.client intent k s.chain c
      × (p.client.execute_mint intent c ≡ (last, out.1.chain))
      × Ends rounds i k backoff s out last

  -- The state in which the loop starts a further round.
  abbrev pub waited : ℤ → State p → State p
  waited backoff s =
      sleep p cfg cancelled intent (sleep_of cfg backoff)
        (count_metric (inc_retry (codes "retry")) (called p cfg cancelled intent s))

  Ends-suc :
      {rounds i k : ℕ} {backoff : ℤ} {s : State p} {out : Result Text × State p}
      {last : Result ExecuteMintResponse}
      → Ends rounds (i + 1) k (next_backoff cfg backoff) (waited backoff s) out last
      → Ends (suc rounds) i (suc k) backoff s out last
  Ends-suc (minted resp r w) = minted resp r w
  Ends-suc (gave_up e (inl no_retry) r w) = gave_up e (inl no_retry) r w
  Ends-suc (gave_up e (inr full) r w) = gave_up e (inr (omega arith)) r w
  Ends-suc {i} {k} (interrupted e m d retry room c r w) =
      interrupted e m d retry (omega arith) (subst (λ j. cancelled j d ≡ some m) (omega arith) c) r
        w

  IsRun-suc :
      (rounds i : ℕ) (backoff : ℤ) (s : State p) (out : Result Text × State p) (e : Text)
      → call p cfg cancelled intent s ≡ err e
      → is_retryable e ≡ true
      → IsRun rounds (i + 1) (next_backoff cfg backoff) (waited backoff s) out
      → IsRun (suc rounds) i backoff s out
  IsRun-suc rounds i backoff s out e failed retry (k, c, last, lt, fails, final, ends) =
      (suc k, c, last, omega arith, once_more e (ground arith) retry fails, final, Ends-suc ends)

  -- One round of the loop, in its four ways.
  module _ (rounds i : ℕ) (backoff : ℤ) (s : State p) where
    abbrev loop : Result Text × State p
    loop = retry_loop p cfg cancelled intent (suc rounds) i backoff s

    loop_minted :
        (resp : ExecuteMintResponse)
        → call p cfg cancelled intent s ≡ ok resp
        → IsRun (suc rounds) i backoff s loop
    unfolding retry_loop
    loop_minted resp h = (
      0,
      s.chain,
      ok resp,
      omega arith,
      not_yet,
      ground arith,
      minted resp (rw (h, retry_loop)) (rw (h, retry_loop)),
    )

    loop_stopped :
        (e : Text)
        → call p cfg cancelled intent s ≡ err e
        → (not (is_retryable e) || i == attempts_of cfg) ≡ true
        → (is_retryable e ≡ false) ⊎ (1 ≡ suc rounds)
        → IsRun (suc rounds) i backoff s loop
    unfolding retry_loop
    loop_stopped e h stop why = (
      0,
      s.chain,
      err e,
      omega arith,
      not_yet,
      ground arith,
      gave_up e why (rw (h, stop, retry_loop)) (rw (h, stop, retry_loop)),
    )

    module _ (e : Text) (h : call p cfg cancelled intent s ≡ err e)
        (go : (not (is_retryable e) || i == attempts_of cfg) ≡ false) where
      loop_interrupted :
          (m : Text)
          → cancelled i (sleep_of cfg backoff) ≡ some m
          → 0 < rounds
          → IsRun (suc rounds) i backoff s loop
      unfolding retry_loop
      loop_interrupted m c room = (
        0,
        s.chain,
        err e,
        omega arith,
        not_yet,
        ground arith,
        interrupted e m (sleep_of cfg backoff) (ground arith) (omega arith)
            (subst (λ j. cancelled j (sleep_of cfg backoff) ≡ some m) (omega arith) c)
            (rw (h, go, c, retry_loop)) (rw (h, go, c, retry_loop)),
      )

      loop_next :
          cancelled i (sleep_of cfg backoff) ≡ none
          → loop
            ≡ retry_loop p cfg cancelled intent rounds
                (i + 1)
                (next_backoff cfg backoff)
                (waited backoff s)
      unfolding retry_loop
      loop_next c = rw (h, go, c, retry_loop)

  not_stopped :
      (e : Text) (i n : ℕ)
      → (not (is_retryable e) || i == n) ≡ false
      → (is_retryable e ≡ true) × (i ≢ n)
  not_stopped e i n h = ground arith

  -- The loop with the rounds that `i` leaves of the attempts, one at least.
  retry_loop-IsRun :
      (rounds i : ℕ) (backoff : ℤ) (s : State p)
      → i + rounds ≡ attempts_of cfg
      → IsRun (suc rounds) i backoff s (retry_loop p cfg cancelled intent (suc rounds) i backoff s)
  retry_loop-IsRun zero i backoff s start = elim (Result-cases (call p cfg cancelled intent s)) [
    | inr (resp, h) ↦ loop_minted zero i backoff s resp h
    | inl (e, h) ↦ loop_stopped zero i backoff s e h (ground arith) (inr refl)
  ]
  retry_loop-IsRun (suc rounds) i backoff s start =
      elim (Result-cases (call p cfg cancelled intent s)) [
        | inr (resp, h) ↦ loop_minted (suc rounds) i backoff s resp h
        | inl (e, h) ↦ elim (Bool-cases (not (is_retryable e) || i == attempts_of cfg)) [
          | inl stop ↦ loop_stopped (suc rounds) i backoff s e h stop (inl (ground arith))
          | inr go ↦ elim (Option-cases (cancelled i (sleep_of cfg backoff))) [
            | inr (m, c) ↦ loop_interrupted (suc rounds) i backoff s e h go m c (omega arith)
            | inl c ↦
                subst (λ out. IsRun (suc (suc rounds)) i backoff s out)
                  (sym (loop_next (suc rounds) i backoff s e h go c))
                  (IsRun-suc (suc rounds) i backoff s _ e h (not_stopped e i _ go).0 (
                    retry_loop-IsRun rounds (i + 1) (next_backoff cfg backoff) (waited backoff s)
                      (omega arith)))
          ]
        ]
      ]

  -- executeMintWithRetry calls ExecuteMint once at least and at most `attempts` times, one call after
  -- the other: all calls but the last fail with retryable errors, and the last decides. It returns the
  -- hash of a success, or the error of a call that is not retryable or was the last attempt, or the
  -- context's error where the context ended during a wait.
  pub execute_mint_with_retry-IsRun :
      (s : State p)
      → IsRun
          (attempts_of cfg)
          1
          (backoff_of cfg)
          s
          (execute_mint_with_retry p cfg cancelled intent s)
  unfolding execute_mint_with_retry
  execute_mint_with_retry-IsRun s =
      let (n, e) = attempts-suc cfg in rw e (retry_loop-IsRun n 1 (backoff_of cfg) s (omega arith))
