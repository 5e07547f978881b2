-- ===== src/Server/Callback.antt =====
-- handleMpesaCallback and validateMpesaRequest of api/internal/server/server.go.
pub mod Laws
pub mod Failed
pub mod Accounted
pub mod Steps
use railway.Base.{ℕ, not, Option, none, some, ◌++◌, if◌then◌else◌}
use railway.Base.Int.{ℤ}
use railway.Base.Result.{Result, ok, err}
use railway.Text.{Text, codes, is_empty, text_eq}
use railway.Http.{Request, Response, http_error, json_response}
use railway.Idempotency.{Record}
use railway.Config.{RetryConfig, ServiceConfig}
use railway.Server.Defs.{
  MpesaCallbackRequest, mpesa_key_prefix, inc_callback, Parts, State, count_metric, Readings,
  body_text, existing,
}
use railway.Server.Retry.{execute_mint_with_retry}
use railway.Server.Dlq.{write_dlq, update_dlq_depth}
use railway.Server.Mint.{saved_record}

unfoldable pub validate_mpesa_request : MpesaCallbackRequest → Option Text
validate_mpesa_request req =
    if is_empty req.intent_id
    then some (codes "intentId is required")
    else if is_empty req.tx_ref
    then some (codes "txRef is required")
    else if is_empty req.user_address
    then some (codes "userAddress is required")
    else if is_empty req.amount
    then some (codes "amount is required")
    else none

abbrev pub mpesa_key : MpesaCallbackRequest → Text
mpesa_key payload = mpesa_key_prefix ++ payload.tx_ref

-- `cancelled` is what the request's context says at each wait.
module _ (p : Parts) (cfg : ServiceConfig) (retry : RetryConfig)
    (cancelled : ℕ → ℤ → Option Text) where
  abbrev pub callback_body : MpesaCallbackRequest → Text → Text
  callback_body payload tx_hash =
      p.codec.encode_mpesa_callback
        (record { status = codes "processed"; intent_id = payload.intent_id; tx_hash = tx_hash })

  abbrev pub respond_callback :
      Readings → MpesaCallbackRequest → Result Text → State p → Response × State p
  respond_callback now payload (err e) s = (
    http_error (codes "failed to execute mint: " ++ e) 500,
    write_dlq p cfg now payload e (count_metric (inc_callback (codes "failed")) s),
  )
  respond_callback now payload (ok tx_hash) s =
      let body = callback_body payload tx_hash in
      let saved = p.store.save (mpesa_key payload) (saved_record p cfg now 200 body) s.records in
      (
        json_response 200 body,
        (update_dlq_depth p cfg
            (count_metric (inc_callback (codes "processed")) (record s { records = saved.1 }))).1,
      )

  -- The part after the lookup of the key, for what was found.
  unfoldable pub callback_after_lookup :
      Readings → MpesaCallbackRequest → Option Record → State p → Response × State p
  callback_after_lookup now payload (some rec) s =
      (json_response rec.status_code rec.response, count_metric (inc_callback (codes "cached")) s)
  callback_after_lookup now payload none s =
      let done = execute_mint_with_retry p retry cancelled payload.intent_id s in
      respond_callback now payload done.0 done.1

  abbrev process_valid :
      Readings → MpesaCallbackRequest → Option Text → State p → Response × State p
  process_valid now payload (some e) s = (http_error e 400, s)
  process_valid now payload none s =
      let found = p.store.get now.lookup (mpesa_key payload) s.records in
      callback_after_lookup now payload (existing found.0) (record s { records = found.1 })

  abbrev process_decoded : Readings → Option MpesaCallbackRequest → State p → Response × State p
  process_decoded now none s = (http_error (codes "invalid json payload") 400, s)
  process_decoded now (some payload) s =
      process_valid now payload (validate_mpesa_request payload) s

  unfoldable pub handle_mpesa_callback : Readings → Request → State p → Response × State p
  handle_mpesa_callback now r s =
      if not (text_eq r.method (codes "POST"))
      then (http_error (codes "method not allowed") 405, s)
      else process_decoded now (p.codec.decode_mpesa_callback (body_text r.body)) s
