-- ===== src/Server/Callback/Steps.antt =====
-- handleMpesaCallback of api/internal/server/server.go in the steps between which other requests may
-- run: each of the calls Get, ExecuteMint and Save, or the dead letter, is one step.
pub mod Laws
pub mod Bound
pub mod Paid
pub mod Race
use railway.Base.{
  ℕ, zero, suc, ◌+◌, not, ◌||◌, ◌==◌, Option, none, some, true, false, if◌then◌else◌,
}
use railway.Base.Int.{ℤ}
use railway.Base.Result.{Result, ok, err}
use railway.Text.{Text, codes, text_eq}
use railway.Http.{Request, Response, http_error, json_response}
use railway.Idempotency.{Record}
use railway.Config.{ServiceConfig, RetryConfig}
use railway.Server.Defs.{
  MpesaCallbackRequest, inc_callback, inc_retry, Parts, State, count_metric, Readings, body_text,
  existing,
}
use railway.Server.Retry.{
  attempts_of, backoff_of, sleep_of, next_backoff, is_retryable, call, called, sleep,
}
use railway.Server.Callback.{mpesa_key, validate_mpesa_request, respond_callback}

-- How far a callback has come: what its lookup found, the loop of executeMintWithRetry with the
-- rounds left and the variables i and backoff, what the loop returned, the response.
pub data Stage : Type 0 where
  arrived : Stage
  looked_up : MpesaCallbackRequest → Option Record → Stage
  trying : MpesaCallbackRequest → ℕ → ℕ → ℤ → Stage
  minted : MpesaCallbackRequest → Result Text → Stage
  responded : Response → Stage

module _ (p : Parts) (cfg : ServiceConfig) (retry : RetryConfig)
    (cancelled : ℕ → ℤ → Option Text) where
  abbrev valid_step : Readings → MpesaCallbackRequest → Option Text → State p → Stage × State p
  valid_step now payload (some e) s = (responded (http_error e 400), s)
  valid_step now payload none s =
      let found = p.store.get now.lookup (mpesa_key payload) s.records in
      (looked_up payload (existing found.0), record s { records = found.1 })

  abbrev decoded_step : Readings → Option MpesaCallbackRequest → State p → Stage × State p
  decoded_step now none s = (responded (http_error (codes "invalid json payload") 400), s)
  decoded_step now (some payload) s = valid_step now payload (validate_mpesa_request payload) s

  -- A round of the loop.
  abbrev try_step : MpesaCallbackRequest → ℕ → ℕ → ℤ → State p → Stage × State p
  try_step payload zero i backoff s = (minted payload (err (codes "exhausted retries")), s)
  try_step payload (suc rounds) i backoff s = elim (call p retry cancelled payload.intent_id s) [
    | ok resp ↦ (
      minted payload (ok resp.tx_hash),
      count_metric (inc_retry (codes "success")) (called p retry cancelled payload.intent_id s),
    )
    | err e ↦ elim (not (is_retryable e) || i == attempts_of retry) [
      | true ↦ (
        minted payload (err e),
        count_metric (inc_retry (codes "failed")) (called p retry cancelled payload.intent_id s),
      )
      | false ↦
          let waiting = sleep p retry cancelled payload.intent_id (sleep_of retry backoff) (
            count_metric (inc_retry (codes "retry"))
              (called p retry cancelled payload.intent_id s)) in
          elim (cancelled i (sleep_of retry backoff)) [
            | some e' ↦ (minted payload (err e'), waiting)
            | none ↦ (trying payload rounds (i + 1) (next_backoff retry backoff), waiting)
          ]
    ]
  ]

  unfoldable pub callback_step : Readings → Request → Stage → State p → Stage × State p
  callback_step now r arrived s =
      if not (text_eq r.method (codes "POST"))
      then (responded (http_error (codes "method not allowed") 405), s)
      else decoded_step now (p.codec.decode_mpesa_callback (body_text r.body)) s
  callback_step now r (looked_up payload (some rec)) s = (
    responded (json_response rec.status_code rec.response),
    count_metric (inc_callback (codes "cached")) s,
  )
  callback_step now r (looked_up payload none) s =
      try_step payload (attempts_of retry) 1 (backoff_of retry) s
  callback_step now r (trying payload rounds i backoff) s = try_step payload rounds i backoff s
  callback_step now r (minted payload result) s =
      let out = respond_callback p cfg retry cancelled now payload result s in
      (responded out.0, out.1)
  callback_step now r (responded resp) s = (responded resp, s)
