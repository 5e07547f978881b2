-- ===== src/Server/Callback/Steps/Paid.antt =====
-- The lookup of a payment that has no live record, and a mint that the escrow takes at once.
use railway.Base.{ℕ, zero, suc, ◌≡◌, Option, none, some, ap}
use railway.Base.Int.{ℤ, pos, negsuc}
use railway.Base.Result.{Result, ok}
use railway.Text.{Text, codes, text_eq_iff}
use railway.Http.{Request}
use railway.Idempotency.{IsLawful, live}
use railway.Escrow.{ExecuteMintResponse}
use railway.Config.{ServiceConfig, RetryConfig}
use railway.Server.Defs.{
  MpesaCallbackRequest, Parts, State, Readings, body_text, count_metric, inc_retry,
}
use railway.Server.Records.{existing-live}
use railway.Server.Retry.{backoff_of, at_least_1}
use railway.Server.Callback.{mpesa_key, validate_mpesa_request}
use railway.Server.Callback.Steps.{arrived, looked_up, minted, try_step, callback_step}

module _ (p : Parts) (cfg : ServiceConfig) (retry : RetryConfig) (cancelled : ℕ → ℤ → Option Text)
    (lawful : IsLawful p.store) where
  -- A valid callback whose mint the escrow takes at the first attempt.
  abbrev pub IsPaid :
      Request
      → MpesaCallbackRequest
      → ExecuteMintResponse
      → p.client.Chain
      → p.client.Chain
      → Type 0
  IsPaid r payload resp chain next =
      (r.method ≡ codes "POST")
      × (p.codec.decode_mpesa_callback (body_text r.body) ≡ some payload)
      × (validate_mpesa_request payload ≡ none)
      × (p.client.execute_mint payload.intent_id chain ≡ (ok resp, next))

  pub lookup_missed :
      (now : Readings) (r : Request) (payload : MpesaCallbackRequest) (s : State p)
      → r.method ≡ codes "POST"
      → p.codec.decode_mpesa_callback (body_text r.body) ≡ some payload
      → validate_mpesa_request payload ≡ none
      → live now.lookup (lawful.view s.records (mpesa_key payload)) ≡ none
      → callback_step p cfg retry cancelled now r arrived s ≡ (
        looked_up payload none,
        record s { records = (p.store.get now.lookup (mpesa_key payload) s.records).1 },
      )
  unfolding callback_step
  lookup_missed now r payload s post decoded valid fresh = rw (
    (text_eq_iff _ _).1 post,
    decoded,
    valid,
    existing-live lawful now.lookup (mpesa_key payload) s.records,
    fresh,
  )

  round_paid :
      (payload : MpesaCallbackRequest) (resp : ExecuteMintResponse) (rounds : ℕ) (s : State p)
      (next : p.client.Chain)
      → p.client.execute_mint payload.intent_id s.chain ≡ (ok resp, next)
      → try_step p cfg retry cancelled payload (suc rounds) 1 (backoff_of retry) s ≡ (
        minted payload (ok resp.tx_hash),
        count_metric (inc_retry (codes "success")) (record s { chain = next }),
      )
  round_paid payload resp rounds s next paid =
      rw (paid, try_step)
        (ap
          (λ (out : Result ExecuteMintResponse × p.client.Chain). (
            minted payload (ok resp.tx_hash),
            count_metric (inc_retry (codes "success")) (record s { chain = out.1 }),
          ))
          paid)

  -- The loop makes a first attempt, whatever is configured.
  try_paid :
      (payload : MpesaCallbackRequest) (resp : ExecuteMintResponse) (attempts : ℤ) (s : State p)
      (next : p.client.Chain)
      → p.client.execute_mint payload.intent_id s.chain ≡ (ok resp, next)
      → try_step p cfg retry cancelled payload (at_least_1 attempts) 1 (backoff_of retry) s ≡ (
        minted payload (ok resp.tx_hash),
        count_metric (inc_retry (codes "success")) (record s { chain = next }),
      )
  try_paid payload resp (pos zero) s next paid = round_paid payload resp 0 s next paid
  try_paid payload resp (pos (suc n)) s next paid = round_paid payload resp n s next paid
  try_paid payload resp (negsuc n) s next paid = round_paid payload resp 0 s next paid

  pub attempt_paid :
      (now : Readings) (r : Request) (payload : MpesaCallbackRequest) (resp : ExecuteMintResponse)
      (s : State p) (next : p.client.Chain)
      → p.client.execute_mint payload.intent_id s.chain ≡ (ok resp, next)
      → callback_step p cfg retry cancelled now r (looked_up payload none) s ≡ (
        minted payload (ok resp.tx_hash),
        count_metric (inc_retry (codes "success")) (record s { chain = next }),
      )
  unfolding callback_step
  attempt_paid now r payload resp s next paid = try_paid payload resp retry.max_attempts s next paid
