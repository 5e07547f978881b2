-- ===== src/Server/Callback/Steps/Bound.antt =====
-- How often callbacks that run at the same time call the escrow.
use railway.Base.{
  ℕ, zero, suc, ◌+◌, ◌*◌, ◌≤◌, ◌≡◌, refl, arith, length, Option, none, some, List, [], ◌∷◌, not,
  ◌||◌, ◌==◌, inl, inr, Bool-cases, Option-cases,
}
use railway.Base.Int.{ℤ}
use railway.Base.Result.{ok, err, Result-cases}
use railway.Text.{Text, codes, text_eq}
use railway.Http.{Request}
use railway.Config.{ServiceConfig, RetryConfig}
use railway.Server.Defs.{
  MpesaCallbackRequest, Parts, State, Readings, body_text, count_metric, inc_callback,
}
use railway.Server.Retry.{attempts_of, backoff_of, sleep_of, is_retryable, call}
use railway.Server.Dlq.{update_dlq_depth}
use railway.Server.Dlq.Laws.{write_dlq_frame}
use railway.Server.Callback.{validate_mpesa_request}
use railway.Server.Callback.Steps.{
  Stage, arrived, looked_up, trying, minted, responded, try_step, callback_step,
}
use railway.Server.Interleave.{Handling, arrive, advance, interleave}

module _ (p : Parts) (cfg : ServiceConfig) (retry : RetryConfig)
    (cancelled : ℕ → ℤ → Option Text) where
  -- The calls of ExecuteMint that a callback may still make.
  abbrev pub left : Stage → ℕ
  left arrived = attempts_of retry
  left (looked_up payload found) = attempts_of retry
  left (trying payload rounds i backoff) = rounds
  left (minted payload result) = 0
  left (responded resp) = 0

  abbrev total : List (Handling Stage) → ℕ
  total [] = 0
  total (h ∷ hs) = left h.stage + total hs

  -- The chain after calls of ExecuteMint, the newest first.
  abbrev pub mints : List Text → p.client.Chain → p.client.Chain
  mints [] chain = chain
  mints (intent ∷ intents) chain = (p.client.execute_mint intent (mints intents chain)).1

  -- The second chain is the first after at most n calls of ExecuteMint, and nothing else; k more
  -- calls would still be within n.
  abbrev pub IsMinted : ℕ → ℕ → p.client.Chain → p.client.Chain → Type 0
  IsMinted n k before after =
      (intents : List Text) × (after ≡ mints intents before) × (length intents + k ≤ n)

  module _ (n : ℕ) (before : p.client.Chain) where
    IsMinted-le :
        (j k : ℕ) (c : p.client.Chain) → k ≤ j → IsMinted n j before c → IsMinted n k before c
    IsMinted-le j k c h (intents, e, bound) = (intents, e, omega arith)

    try_step-IsMinted :
        (k : ℕ) (payload : MpesaCallbackRequest) (rounds i : ℕ) (backoff : ℤ) (s : State p)
        → IsMinted n (rounds + k) before s.chain
        → IsMinted n
            (left (try_step p cfg retry cancelled payload rounds i backoff s).0 + k)
            before
            (try_step p cfg retry cancelled payload rounds i backoff s).1.chain
    try_step-IsMinted k payload zero i backoff s made = made
    try_step-IsMinted k payload (suc rounds) i backoff s (intents, e, bound) =
        elim (Result-cases (call p retry cancelled payload.intent_id s)) [
          | inr (resp, good) ↦ rw (good, try_step) (payload.intent_id ∷ intents, rw e, omega arith)
          | inl (m, bad) ↦ elim (Bool-cases (not (is_retryable m) || i == attempts_of retry)) [
            | inl last ↦ rw (bad, last, try_step) (payload.intent_id ∷ intents, rw e, omega arith)
            | inr more ↦ elim (Option-cases (cancelled i (sleep_of retry backoff))) [
              | inr (m', ended) ↦
                  rw (bad, more, ended, try_step) (payload.intent_id ∷ intents, rw e, omega arith)
              | inl on ↦
                  rw (bad, more, on, try_step) (payload.intent_id ∷ intents, rw e, omega arith)
            ]
          ]
        ]

    pub callback_step-IsMinted :
        (k : ℕ) (now : Readings) (r : Request) (stage : Stage) (s : State p)
        → IsMinted n (left stage + k) before s.chain
        → IsMinted n
            (left (callback_step p cfg retry cancelled now r stage s).0 + k)
            before
            (callback_step p cfg retry cancelled now r stage s).1.chain
    unfolding callback_step update_dlq_depth
    callback_step-IsMinted k now r arrived s made =
        elim (Bool-cases (text_eq r.method (codes "POST"))) [
          | inr other ↦ rw other (IsMinted-le _ _ s.chain (omega arith) made)
          | inl post ↦ elim (Option-cases (p.codec.decode_mpesa_callback (body_text r.body))) [
            | inl bad ↦ rw (post, bad) (IsMinted-le _ _ s.chain (omega arith) made)
            | inr (payload, decoded) ↦ elim (Option-cases (validate_mpesa_request payload)) [
              | inr (m, invalid) ↦
                  rw (post, decoded, invalid) (IsMinted-le _ _ s.chain (omega arith) made)
              | inl valid ↦ rw (post, decoded, valid) made
            ]
          ]
        ]
    callback_step-IsMinted k now r (looked_up payload (some rec)) s made =
        IsMinted-le _ _ s.chain (omega arith) made
    callback_step-IsMinted k now r (looked_up payload none) s made =
        try_step-IsMinted k payload (attempts_of retry) 1 (backoff_of retry) s made
    callback_step-IsMinted k now r (trying payload rounds i backoff) s made =
        try_step-IsMinted k payload rounds i backoff s made
    callback_step-IsMinted k now r (minted payload (ok hash)) s made = made
    callback_step-IsMinted k now r (minted payload (err e)) s made =
        rw (write_dlq_frame p cfg now payload e (count_metric (inc_callback (codes "failed")) s)).1
          made
    callback_step-IsMinted k now r (responded resp) s made = made

    advance-IsMinted :
        (m k : ℕ) (hs : List (Handling Stage)) (s : State p)
        → IsMinted n (total hs + k) before s.chain
        → IsMinted n
            (total (advance (callback_step p cfg retry cancelled) m hs s).0 + k)
            before
            (advance (callback_step p cfg retry cancelled) m hs s).1.chain
    unfolding advance
    advance-IsMinted m k [] s made = made
    advance-IsMinted zero k (h ∷ hs) s made = IsMinted-le _ _ _ (omega arith) (
        callback_step-IsMinted (total hs + k) h.now h.request h.stage s
          (IsMinted-le _ _ _ (omega arith) made))
    advance-IsMinted (suc m) k (h ∷ hs) s made =
        IsMinted-le _ _ _ (omega arith)
          (advance-IsMinted m (left h.stage + k) hs s (IsMinted-le _ _ _ (omega arith) made))

    interleave-IsMinted-total :
        (order : List ℕ) (hs : List (Handling Stage)) (s : State p)
        → IsMinted n (total hs) before s.chain
        → IsMinted n
            (total (interleave (callback_step p cfg retry cancelled) order (hs, s)).0)
            before
            (interleave (callback_step p cfg retry cancelled) order (hs, s)).1.chain
    unfolding interleave
    interleave-IsMinted-total [] hs s made = made
    interleave-IsMinted-total (m ∷ order) hs s made = interleave-IsMinted-total order _ _ (
        IsMinted-le _ _ _ (omega arith)
          (advance-IsMinted m 0 hs s (IsMinted-le _ _ _ (omega arith) made)))

  total-arrive :
      (requests : List (Readings × Request))
      → total (arrive arrived requests) ≡ length requests * attempts_of retry
  total-arrive [] = omega arith
  total-arrive ((now, r) ∷ rest) = grind (arith, total-arrive rest)

  -- Callbacks run at the same time, their steps in whatever order: the chain has been called at most
  -- as often as the callbacks have attempts, and by ExecuteMint only.
  pub interleave-IsMinted :
      (order : List ℕ) (requests : List (Readings × Request)) (s : State p)
      → IsMinted
          (length requests * attempts_of retry)
          0
          s.chain
          (interleave
            (callback_step p cfg retry cancelled)
            order
            (arrive arrived requests, s)).1.chain
  interleave-IsMinted order requests s =
      IsMinted-le (length requests * attempts_of retry) s.chain _ 0 _ (omega arith) (
        interleave-IsMinted-total (length requests * attempts_of retry) s.chain order
          (arrive arrived requests) s ([], refl, omega (arith, total-arrive requests)))
