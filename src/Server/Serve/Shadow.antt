-- ===== src/Server/Serve/Shadow.antt =====
-- A mint request that takes the key of a payment.
use railway.Base.{◌≡◌, List, none, some, ◌∙◌, ap, sym, subst}
use railway.Base.Int.{◌≤ℤ◌, ◌+ℤ◌}
use railway.Base.Result.{ok}
use railway.Text.{codes}
use railway.Http.{Request, Response}
use railway.Config.{AppConfig}
use railway.Idempotency.{IsLawful, live}
use railway.Hmac.{verify}
use railway.Server.Defs.{Parts, State, MpesaCallbackRequest, body_text}
use railway.Server.Records.{Holds}
use railway.Server.Mint.{mint_key, saved_record, mint_body}
use railway.Server.Callback.{mpesa_key, validate_mpesa_request}
use railway.Server.Serve.{mpesa_verifier, Arrival, with_request_id, Outside, serve, serve_all}
use railway.Server.Serve.Frame.{AllBefore, serve_all-Holds}
use railway.Server.Serve.Routes.{
  mint_path, callback_path, mint_key-with_request_id, serve-IsCreated, serve_callback_cached,
}

module _ (p : Parts) (o : Outside) (cfg : AppConfig) (lawful : IsLawful p.store) where
  -- The two endpoints share the store, and a mint request may choose its key. After a mint request
  -- with the key of a payment has been answered with 201, the signed callback for that payment gets
  -- the mint's response, with its status 201, and nothing is minted for it.
  pub serve_callback_shadowed :
      (a b : Arrival) (r q q' : Request) (payload : MpesaCallbackRequest)
      (requests : List (Arrival × Request)) (s : State p)
      → r.path ≡ mint_path
      → mint_key r ≡ mpesa_key payload
      → live a.readings.lookup (lawful.view s.records (mint_key r)) ≡ none
      → (serve p o cfg a r s).0.status ≡ 201
      → AllBefore (a.readings.expires +ℤ cfg.service.idempotency_window) requests
      → q.path ≡ callback_path
      → q.method ≡ codes "POST"
      → p.codec.decode_mpesa_callback (body_text q.body) ≡ some payload
      → validate_mpesa_request payload ≡ none
      → verify o.mac (mpesa_verifier cfg) b.clock (with_request_id b q) ≡ ok q'
      → b.readings.lookup ≤ℤ a.readings.expires +ℤ cfg.service.idempotency_window
      → ((serve p o cfg b q (serve_all p o cfg requests (serve p o cfg a r s).1)).0
          ≡ (serve p o cfg a r s).0)
        × ((serve p o cfg b q (serve_all p o cfg requests (serve p o cfg a r s).1)).1.chain
            ≡ (serve_all p o cfg requests (serve p o cfg a r s).1).chain)
  serve_callback_shadowed a b r q q' payload requests s path chosen fresh e before qpath post
        decoded valid signed within =
      let (full, made) = serve-IsCreated p o cfg lawful a r s path fresh e in
      let (mint, result, parsed, checked, submitted, response, held) = made in
      let rec = saved_record p cfg.service a.readings 201 (mint_body p cfg.service result) in
      let first = (serve p o cfg a r s).1 in
      let kept =
        serve_all-Holds p o cfg lawful (mint_key (with_request_id a r)) rec requests first before
          held in
      let again =
        serve_callback_cached p o cfg lawful b q q' payload rec (serve_all p o cfg requests first)
          qpath post decoded valid signed within
          (subst (λ k. Holds lawful k rec (serve_all p o cfg requests first).records)
            (mint_key-with_request_id a r ∙ chosen) kept) in
      (
        ap (λ (t : Response × State p). t.0) again ∙ sym response,
        ap (λ (t : Response × State p). t.1.chain) again,
      )
