-- ===== src/Server/Callback/Steps/Laws.antt =====
-- The steps of a callback, taken one after the other, are the handler.
use railway.Base.{
  ℕ, zero, suc, ◌≡◌, Option, none, some, true, false, not, ◌||◌, ◌==◌, refl, inl, inr, Bool-cases,
  Option-cases, ◌∙◌, ap,
}
use railway.Base.Int.{ℤ}
use railway.Base.Result.{Result-cases}
use railway.Text.{Text, codes, text_eq}
use railway.Http.{Request, Response}
use railway.Idempotency.{Record}
use railway.Config.{ServiceConfig, RetryConfig}
use railway.Server.Defs.{MpesaCallbackRequest, Parts, State, Readings, body_text}
use railway.Server.Retry.{
  attempts_of, backoff_of, sleep_of, is_retryable, call, retry_loop, execute_mint_with_retry,
}
use railway.Server.Callback.{
  validate_mpesa_request, respond_callback, process_valid, process_decoded, callback_after_lookup,
  handle_mpesa_callback,
}
use railway.Server.Callback.Steps.{
  Stage, arrived, looked_up, responded, try_step, valid_step, decoded_step, callback_step,
}

module _ (p : Parts) (cfg : ServiceConfig) (retry : RetryConfig) (cancelled : ℕ → ℤ → Option Text)
    (now : Readings) (r : Request) where
  -- n steps of one callback.
  abbrev pub run : ℕ → Stage × State p → Stage × State p
  run zero t = t
  run (suc n) t = run n (callback_step p cfg retry cancelled now r t.0 t.1)

  abbrev done : Response × State p → Stage × State p
  done out = (responded out.0, out.1)

  run-responded : (n : ℕ) (out : Response × State p) → run n (done out) ≡ done out
  unfolding callback_step
  run-responded zero out = refl
  run-responded (suc n) out = run-responded n out

  -- Enough steps end the loop and give the response to what it returns.
  run-try_step :
      (payload : MpesaCallbackRequest) (rounds i : ℕ) (backoff : ℤ) (s : State p)
      → run (suc rounds) (try_step p cfg retry cancelled payload rounds i backoff s)
        ≡ done (
            respond_callback p cfg retry cancelled now payload
              (retry_loop p retry cancelled payload.intent_id rounds i backoff s).0
              (retry_loop p retry cancelled payload.intent_id rounds i backoff s).1)
  unfolding callback_step retry_loop
  run-try_step payload zero i backoff s = refl
  run-try_step payload (suc rounds) i backoff s =
      elim (Result-cases (call p retry cancelled payload.intent_id s)) [
        | inr (resp, good) ↦ rw (good, try_step, retry_loop) (run-responded (suc rounds) _)
        | inl (e, bad) ↦ elim (Bool-cases (not (is_retryable e) || i == attempts_of retry)) [
          | inl last ↦ rw (bad, last, try_step, retry_loop) (run-responded (suc rounds) _)
          | inr more ↦ elim (Option-cases (cancelled i (sleep_of retry backoff))) [
            | inr (e', ended) ↦
                rw (bad, more, ended, try_step, retry_loop) (run-responded (suc rounds) _)
            | inl on ↦ rw (bad, more, on, try_step, retry_loop) (run-try_step payload rounds _ _ _)
          ]
        ]
      ]

  run-after_lookup :
      (payload : MpesaCallbackRequest) (found : Option Record) (s : State p)
      → run (suc (suc (attempts_of retry))) (looked_up payload found, s)
        ≡ done (callback_after_lookup p cfg retry cancelled now payload found s)
  unfolding callback_step callback_after_lookup execute_mint_with_retry
  run-after_lookup payload (some rec) s = run-responded (suc (attempts_of retry)) _
  run-after_lookup payload none s = run-try_step payload (attempts_of retry) 1 (backoff_of retry) s

  run-valid_step :
      (payload : MpesaCallbackRequest) (invalid : Option Text) (s : State p)
      → run (suc (suc (attempts_of retry))) (valid_step p cfg retry cancelled now payload invalid s)
        ≡ done (process_valid p cfg retry cancelled now payload invalid s)
  run-valid_step payload (some e) s = run-responded (suc (suc (attempts_of retry))) _
  run-valid_step payload none s = run-after_lookup payload _ _

  run-decoded_step :
      (decoded : Option MpesaCallbackRequest) (s : State p)
      → run (suc (suc (attempts_of retry))) (decoded_step p cfg retry cancelled now decoded s)
        ≡ done (process_decoded p cfg retry cancelled now decoded s)
  run-decoded_step none s = run-responded (suc (suc (attempts_of retry))) _
  run-decoded_step (some payload) s = run-valid_step payload (validate_mpesa_request payload) s

  arrived_step :
      (s : State p)
      → text_eq r.method (codes "POST") ≡ true
      → callback_step p cfg retry cancelled now r arrived s
        ≡ decoded_step p cfg retry cancelled now
            (p.codec.decode_mpesa_callback (body_text r.body))
            s
  unfolding callback_step
  arrived_step s post = rw post

  refused_step :
      (s : State p)
      → text_eq r.method (codes "POST") ≡ false
      → callback_step p cfg retry cancelled now r arrived s
        ≡ done (handle_mpesa_callback p cfg retry cancelled now r s)
  unfolding callback_step handle_mpesa_callback
  refused_step s other = rw other

  -- A callback that no other request interrupts has responded after three steps and the configured
  -- attempts, with the response of the handler, and leaves the state that the handler leaves.
  pub callback_step-handle_mpesa_callback :
      (s : State p)
      → run (suc (suc (suc (attempts_of retry)))) (arrived, s) ≡ (
        responded (handle_mpesa_callback p cfg retry cancelled now r s).0,
        (handle_mpesa_callback p cfg retry cancelled now r s).1,
      )
  unfolding handle_mpesa_callback
  callback_step-handle_mpesa_callback s = elim (Bool-cases (text_eq r.method (codes "POST"))) [
    | inr other ↦
        ap (run (suc (suc (attempts_of retry)))) (refused_step s other)
        ∙ run-responded (suc (suc (attempts_of retry))) _
    | inl post ↦
        ap (run (suc (suc (attempts_of retry)))) (arrived_step s post)
        ∙ run-decoded_step (p.codec.decode_mpesa_callback (body_text r.body)) s
        ∙ rw post
  ]
