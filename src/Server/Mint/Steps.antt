-- ===== src/Server/Mint/Steps.antt =====
-- handleMintIntents of api/internal/server/server.go in the steps between which other requests may
-- run: each of the calls Get, SubmitIntent and Save is one step, with the code up to the next.
pub mod Laws
pub mod Bound
pub mod Race
use railway.Base.{ℕ, zero, suc, not, Option, none, some, List, [], ◌∷◌, if◌then◌else◌}
use railway.Base.Result.{Result}
use railway.Text.{Text, codes, is_empty, text_eq}
use railway.Http.{Request, Response, http_error, json_response}
use railway.Idempotency.{Record}
use railway.Escrow.{SubmitIntentResponse}
use railway.Config.{ServiceConfig}
use railway.Server.Defs.{
  MintIntentRequest, inc_mint, Parts, State, count_metric, Readings, body_text, existing,
}
use railway.Server.Mint.{mint_key, validate_mint_intent_request, submission, respond_mint}

-- How far a request has come: what its lookup found, what its submission returned, its response.
pub data Stage : Type 0 where
  arrived : Stage
  looked_up : Option Record → Stage
  submitted : Result SubmitIntentResponse → Stage
  responded : Response → Stage

module _ (p : Parts) (cfg : ServiceConfig) where
  abbrev submit_valid_step : MintIntentRequest → Option Text → State p → Stage × State p
  submit_valid_step payload (some e) s = (responded (http_error e 400), s)
  submit_valid_step payload none s =
      let sent = p.client.submit_intent (submission payload) s.chain in
      (submitted sent.0, record s { chain = sent.1 })

  abbrev submit_decoded_step : Option MintIntentRequest → State p → Stage × State p
  submit_decoded_step none s = (responded (http_error (codes "invalid json payload") 400), s)
  submit_decoded_step (some payload) s =
      submit_valid_step payload (validate_mint_intent_request payload) s

  abbrev lookup_step : Readings → Request → State p → Stage × State p
  lookup_step now r s =
      if not (text_eq r.method (codes "POST"))
      then (responded (http_error (codes "method not allowed") 405), s)
      else if is_empty (mint_key r)
      then (responded (http_error (codes "missing X-Idempotency-Key header") 400), s)
      else let found = p.store.get now.lookup (mint_key r) s.records in
        (looked_up (existing found.0), record s { records = found.1 })

  unfoldable pub mint_step : Readings → Request → Stage → State p → Stage × State p
  mint_step now r arrived s = lookup_step now r s
  mint_step now r (looked_up (some rec)) s = (
    responded (json_response rec.status_code rec.response),
    count_metric (inc_mint (codes "cached")) s,
  )
  mint_step now r (looked_up none) s =
      submit_decoded_step (p.codec.decode_mint_intent (body_text r.body)) s
  mint_step now r (submitted result) s =
      let out = respond_mint p cfg now (mint_key r) result s in (responded out.0, out.1)
  mint_step now r (responded resp) s = (responded resp, s)
