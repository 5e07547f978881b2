-- ===== src/Server/Mint.antt =====
-- handleMintIntents and validateMintIntentRequest of api/internal/server/server.go.
pub mod Laws
pub mod Accounted
pub mod Kept
pub mod Steps
use railway.Base.{ℕ, not, Option, none, some, ◌++◌, if◌then◌else◌}
use railway.Base.Int.{◌+ℤ◌}
use railway.Base.Result.{Result, ok, err}
use railway.Text.{Text, codes, is_empty, text_eq, trim_space}
use railway.Http.{Request, header_get, Response, http_error, json_response}
use railway.Idempotency.{Record}
use railway.Escrow.{SubmitIntentRequest, SubmitIntentResponse}
use railway.Config.{ServiceConfig}
use railway.Server.Defs.{
  MintIntentRequest, inc_mint, Parts, State, count_metric, Readings, body_text, existing,
}

-- The error, or `none` for nil.
unfoldable pub validate_mint_intent_request : MintIntentRequest → Option Text
validate_mint_intent_request req =
    if is_empty req.user_address
    then some (codes "userAddress is required")
    else if is_empty req.amount
    then some (codes "amount is required")
    else if is_empty req.country_code
    then some (codes "countryCode is required")
    else if is_empty req.tx_ref
    then some (codes "txRef is required")
    else none

-- The trimmed idempotency key of a request.
unfoldable pub mint_key : Request → Text
mint_key r = trim_space (header_get (codes "X-Idempotency-Key") r.headers)

abbrev pub submission : MintIntentRequest → SubmitIntentRequest
submission payload = record {
  user_address = payload.user_address;
  amount = payload.amount;
  country_code = payload.country_code;
  tx_ref = payload.tx_ref;
}

module _ (p : Parts) (cfg : ServiceConfig) where
  -- The record that is saved for a response.
  abbrev pub saved_record : Readings → ℕ → Text → Record
  saved_record now status b = record {
    status_code = status;
    response = b;
    created_at = now.created;
    expires_at = now.expires +ℤ cfg.idempotency_window;
  }

  abbrev pub mint_body : SubmitIntentResponse → Text
  mint_body result = p.codec.encode_mint_intent (record {
    intent_id = result.intent_id;
    status = codes "submitted";
    tx_hash = result.tx_hash;
  })

  -- After the submission: the state holds what the call left of the chain.
  abbrev pub respond_mint :
      Readings → Text → Result SubmitIntentResponse → State p → Response × State p
  respond_mint now key (err e) s = (
    http_error (codes "failed to submit intent: " ++ e) 502,
    count_metric (inc_mint (codes "failed")) s,
  )
  respond_mint now key (ok result) s =
      let b = mint_body result in
      let saved = p.store.save key (saved_record now 201 b) s.records in
      (
        json_response 201 b,
        count_metric (inc_mint (codes "created")) (record s { records = saved.1 }),
      )

  abbrev submit_valid :
      Readings → Text → MintIntentRequest → Option Text → State p → Response × State p
  submit_valid now key payload (some e) s = (http_error e 400, s)
  submit_valid now key payload none s =
      let submitted = p.client.submit_intent (submission payload) s.chain in
      respond_mint now key submitted.0 (record s { chain = submitted.1 })

  abbrev submit_decoded : Readings → Text → Option MintIntentRequest → State p → Response × State p
  submit_decoded now key none s = (http_error (codes "invalid json payload") 400, s)
  submit_decoded now key (some payload) s =
      submit_valid now key payload (validate_mint_intent_request payload) s

  -- The part after the lookup of the key, for what was found.
  unfoldable pub mint_after_lookup :
      Readings → Text → Request → Option Record → State p → Response × State p
  mint_after_lookup now key r (some rec) s =
      (json_response rec.status_code rec.response, count_metric (inc_mint (codes "cached")) s)
  mint_after_lookup now key r none s =
      submit_decoded now key (p.codec.decode_mint_intent (body_text r.body)) s

  unfoldable pub handle_mint_intents : Readings → Request → State p → Response × State p
  handle_mint_intents now r s =
      if not (text_eq r.method (codes "POST"))
      then (http_error (codes "method not allowed") 405, s)
      else if is_empty (mint_key r)
      then (http_error (codes "missing X-Idempotency-Key header") 400, s)
      else let found = p.store.get now.lookup (mint_key r) s.records in
        mint_after_lookup now (mint_key r) r (existing found.0) (record s { records = found.1 })
