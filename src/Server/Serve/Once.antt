-- ===== src/Server/Serve/Once.antt =====
-- Repeated requests, through the routes, with any requests in between.
use railway.Base.{◌≡◌, ◌++◌, List, none, some, ◌∙◌, ap, sym, subst}
use railway.Base.Int.{◌≤ℤ◌, ◌+ℤ◌}
use railway.Base.Result.{ok}
use railway.Text.{Text, codes}
use railway.Http.{Request, Response}
use railway.Config.{AppConfig}
use railway.Idempotency.{IsLawful, live}
use railway.Hmac.{verify}
use railway.Hmac.Laws.{middleware_of_verify}
use railway.Server.Defs.{mpesa_key_prefix, Parts, State, MpesaCallbackRequest, body_text}
use railway.Server.Records.{Holds}
use railway.Server.Mint.{mint_key, saved_record, mint_body}
use railway.Server.Mint.Laws.{IsCreated}
use railway.Server.Retry.{execute_mint_with_retry}
use railway.Server.Callback.{callback_body, mpesa_key, validate_mpesa_request}
use railway.Server.Callback.Laws.{handle_mpesa_callback_processed, looked_up}
use railway.Server.Serve.{
  hmac_verifier, mpesa_verifier, Arrival, with_request_id, Outside, serve, serve_all,
}
use railway.Server.Serve.Frame.{AllBefore, serve_all-Holds, with_request_id_frame}
use railway.Server.Serve.Routes.{
  mint_path, callback_path, mint_key-with_request_id, serve_callback, serve-IsCreated,
  serve_mint_cached, serve_callback_cached,
}

module _ (p : Parts) (o : Outside) (cfg : AppConfig) (lawful : IsLawful p.store) where
  -- A mint request that the server answers with 201, for a key with no live record, has submitted
  -- the intent once. Any requests may follow, genuine or forged, to any endpoint. A further signed
  -- request with the same key, within the idempotency window, gets the same response, whatever its
  -- body, and the chain is not called for it.
  pub serve_mint_once :
      (a b : Arrival) (r q q' : Request) (requests : List (Arrival × Request)) (s : State p)
      → r.path ≡ mint_path
      → live a.readings.lookup (lawful.view s.records (mint_key r)) ≡ none
      → (serve p o cfg a r s).0.status ≡ 201
      → AllBefore (a.readings.expires +ℤ cfg.service.idempotency_window) requests
      → q.path ≡ mint_path
      → q.method ≡ codes "POST"
      → mint_key q ≡ mint_key r
      → verify o.mac (hmac_verifier cfg) b.clock (with_request_id b q) ≡ ok q'
      → b.readings.lookup ≤ℤ a.readings.expires +ℤ cfg.service.idempotency_window
      → IsCreated p lawful cfg.service a.readings (with_request_id a r) s (serve p o cfg a r s)
        × ((serve p o cfg b q (serve_all p o cfg requests (serve p o cfg a r s).1)).0
            ≡ (serve p o cfg a r s).0)
        × ((serve p o cfg b q (serve_all p o cfg requests (serve p o cfg a r s).1)).1.chain
            ≡ (serve_all p o cfg requests (serve p o cfg a r s).1).chain)
  serve_mint_once a b r q q' requests s path fresh e before qpath post same signed within =
      let (full, made) = serve-IsCreated p o cfg lawful a r s path fresh e in
      let (payload, result, decoded, valid, submitted, response, held) = made in
      let rec = saved_record p cfg.service a.readings 201 (mint_body p cfg.service result) in
      let first = (serve p o cfg a r s).1 in
      let kept =
        serve_all-Holds p o cfg lawful (mint_key (with_request_id a r)) rec requests first before
          held in
      let again =
        serve_mint_cached p o cfg lawful b q q' (mint_key (with_request_id a r)) rec
          (serve_all p o cfg requests first) qpath post (same ∙ sym (mint_key-with_request_id a r))
          (λ h. full (sym (mint_key-with_request_id a r) ∙ h)) signed within kept in
      (
        made,
        ap (λ (t : Response × State p). t.0) again ∙ sym response,
        ap (λ (t : Response × State p). t.1.chain) again,
      )

  -- A callback that the server answers with 200, for a payment with no live record, has minted. Any
  -- requests may follow. The same payment's callback, within the window, gets the same response, and
  -- the chain is not called for it.
  pub serve_callback_once :
      (a b : Arrival) (r r' q q' : Request) (paid again : MpesaCallbackRequest) (hash : Text)
      (requests : List (Arrival × Request)) (s t : State p)
      → r.path ≡ callback_path
      → r.method ≡ codes "POST"
      → p.codec.decode_mpesa_callback (body_text r.body) ≡ some paid
      → validate_mpesa_request paid ≡ none
      → verify o.mac (mpesa_verifier cfg) a.clock (with_request_id a r) ≡ ok r'
      → live a.readings.lookup (lawful.view s.records (mpesa_key paid)) ≡ none
      → execute_mint_with_retry p cfg.retry a.cancelled paid.intent_id
          (looked_up p lawful cfg.service cfg.retry a.cancelled a.readings paid s)
        ≡ (ok hash, t)
      → AllBefore (a.readings.expires +ℤ cfg.service.idempotency_window) requests
      → q.path ≡ callback_path
      → q.method ≡ codes "POST"
      → p.codec.decode_mpesa_callback (body_text q.body) ≡ some again
      → validate_mpesa_request again ≡ none
      → again.tx_ref ≡ paid.tx_ref
      → verify o.mac (mpesa_verifier cfg) b.clock (with_request_id b q) ≡ ok q'
      → b.readings.lookup ≤ℤ a.readings.expires +ℤ cfg.service.idempotency_window
      → ((serve p o cfg a r s).1.chain ≡ t.chain)
        × ((serve p o cfg b q (serve_all p o cfg requests (serve p o cfg a r s).1)).0
            ≡ (serve p o cfg a r s).0)
        × ((serve p o cfg b q (serve_all p o cfg requests (serve p o cfg a r s).1)).1.chain
            ≡ (serve_all p o cfg requests (serve p o cfg a r s).1).chain)
  serve_callback_once a b r r' q q' paid again hash requests s t path post decoded valid signed
        fresh minted before qpath qpost qdecoded qvalid same qsigned within =
      let r1 = with_request_id a r in
      let sent =
        serve_callback p o cfg a r s path
        ∙ middleware_of_verify o.mac (mpesa_verifier cfg) a.clock _ r1 r' s signed in
      let (response, chain, held) =
        handle_mpesa_callback_processed p lawful cfg.service cfg.retry a.cancelled a.readings r1
          paid hash s t ((with_request_id_frame a r).0 ∙ post)
          (ap (λ c. p.codec.decode_mpesa_callback (body_text c)) (with_request_id_frame a r).2
            ∙ decoded)
          valid fresh minted in
      let rec =
        saved_record p cfg.service a.readings 200
          (callback_body p cfg.service cfg.retry a.cancelled paid hash) in
      let first = (serve p o cfg a r s).1 in
      let kept = serve_all-Holds p o cfg lawful (mpesa_key paid) rec requests first before (
        subst (λ (out : Response × State p). Holds lawful (mpesa_key paid) rec out.1.records)
          (sym sent) held) in
      let repeated =
        serve_callback_cached p o cfg lawful b q q' again rec (serve_all p o cfg requests first)
          qpath qpost qdecoded qvalid qsigned within
          (subst (λ k. Holds lawful k rec (serve_all p o cfg requests first).records)
            (ap (λ x. mpesa_key_prefix ++ x) (sym same)) kept) in
      (
        ap (λ (out : Response × State p). out.1.chain) sent ∙ chain,
        ap (λ (out : Response × State p). out.0) repeated
            ∙ sym (ap (λ (out : Response × State p). out.0) sent ∙ response),
        ap (λ (out : Response × State p). out.1.chain) repeated,
      )
