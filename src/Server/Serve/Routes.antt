-- ===== src/Server/Serve/Routes.antt =====
-- How a request reaches the handler of its path, and when it is answered from the store.
use railway.Base.{◌≡◌, refl, ◌≢◌, false, [], none, some, arith, ◌∙◌, ap, sym, subst}
use railway.Base.Int.{◌≤ℤ◌}
use railway.Base.Result.{ok}
use railway.Text.{Text, codes, text_eq, text_eq_iff}
use railway.Http.{Request, Response, json_response}
use railway.Config.{AppConfig}
use railway.Idempotency.{Record, IsLawful, live}
use railway.Hmac.{middleware, verify}
use railway.Hmac.Laws.{middleware_passed, middleware_of_verify}
use railway.Server.Defs.{
  Parts, State, MpesaCallbackRequest, count_metric, inc_mint, inc_callback, body_text,
}
use railway.Server.Records.{Holds}
use railway.Server.Mint.{mint_key, handle_mint_intents}
use railway.Server.Mint.Laws.{IsCreated, handle_mint_intents-IsCreated, handle_mint_intents_cached}
use railway.Server.Callback.{handle_mpesa_callback, mpesa_key, validate_mpesa_request}
use railway.Server.Callback.Laws.{handle_mpesa_callback_cached}
use railway.Server.Serve.{
  hmac_verifier, mpesa_verifier, Arrival, with_request_id, Outside, route, serve,
}
use railway.Server.Serve.Frame.{with_request_id_frame, header_get-with_request_id}

abbrev pub mint_path : Text
mint_path = codes "/api/v1/mint-intents"

abbrev pub callback_path : Text
callback_path = codes "/api/v1/callbacks/mpesa"

callback-ne-mint : text_eq callback_path mint_path ≡ false
unfolding codes text_eq
callback-ne-mint = refl

pub mint-ne-callback : text_eq mint_path callback_path ≡ false
unfolding codes text_eq
mint-ne-callback = refl

request_id-ne-key : text_eq (codes "X-Request-Id") (codes "X-Idempotency-Key") ≡ false
unfolding codes text_eq
request_id-ne-key = refl

-- The middleware for request ids does not change the idempotency key.
pub path-with_request_id : (a : Arrival) (r : Request) → (with_request_id a r).path ≡ r.path
path-with_request_id a r = (with_request_id_frame a r).1

pub mint_key-with_request_id :
    (a : Arrival) (r : Request) → mint_key (with_request_id a r) ≡ mint_key r
unfolding mint_key
mint_key-with_request_id a r =
    rw (header_get-with_request_id a r (codes "X-Idempotency-Key") request_id-ne-key)

module _ (p : Parts) (o : Outside) (cfg : AppConfig) where
  pub serve_mint :
      (a : Arrival) (r : Request) (s : State p)
      → r.path ≡ mint_path
      → serve p o cfg a r s
        ≡ middleware o.mac
            (hmac_verifier cfg)
            a.clock
            (handle_mint_intents p cfg.service a.readings)
            (with_request_id a r)
            s
  unfolding serve route
  serve_mint a r s path = rw (route, (text_eq_iff _ _).1 ((with_request_id_frame a r).1 ∙ path))

  pub serve_callback :
      (a : Arrival) (r : Request) (s : State p)
      → r.path ≡ callback_path
      → serve p o cfg a r s
        ≡ middleware o.mac
            (mpesa_verifier cfg)
            a.clock
            (handle_mpesa_callback p cfg.service cfg.retry a.cancelled a.readings)
            (with_request_id a r)
            s
  unfolding serve route
  serve_callback a r s path = rw (
    route,
    (with_request_id_frame a r).1,
    path,
    callback-ne-mint,
    (text_eq_iff callback_path _).1 refl,
  )

module _ (p : Parts) (o : Outside) (cfg : AppConfig) (lawful : IsLawful p.store) where
  -- The first request creates an intent.
  pub serve-IsCreated :
      (a : Arrival) (r : Request) (s : State p)
      → r.path ≡ mint_path
      → live a.readings.lookup (lawful.view s.records (mint_key r)) ≡ none
      → (serve p o cfg a r s).0.status ≡ 201
      → (mint_key r ≢ [])
        × IsCreated p lawful cfg.service a.readings (with_request_id a r) s (serve p o cfg a r s)
  serve-IsCreated a r s path fresh e =
      let r1 = with_request_id a r in
      let next = handle_mint_intents p cfg.service a.readings in
      let sent = serve_mint p o cfg a r s path in
      let passed =
        sent
        ∙ middleware_passed o.mac (hmac_verifier cfg) a.clock next r1 s
            (λ h. omega (arith, ap (λ (t : Response × State p). t.0.status) sent, e, h)) in
      let created =
        handle_mint_intents-IsCreated p lawful cfg.service a.readings r1 s
          (rw (mint_key-with_request_id a r) fresh)
          (sym (ap (λ (t : Response × State p). t.0.status) passed) ∙ e) in
      (
        (λ h. created.1 (mint_key-with_request_id a r ∙ h)),
        subst (λ out. IsCreated p lawful cfg.service a.readings r1 s out) (sym passed) created.2,
      )

  -- A signed request for a record's key, before its end.
  pub serve_mint_cached :
      (b : Arrival) (q q' : Request) (k : Text) (rec : Record) (t : State p)
      → q.path ≡ mint_path
      → q.method ≡ codes "POST"
      → mint_key q ≡ k
      → k ≢ []
      → verify o.mac (hmac_verifier cfg) b.clock (with_request_id b q) ≡ ok q'
      → b.readings.lookup ≤ℤ rec.expires_at
      → Holds lawful k rec t.records
      → serve p o cfg b q t ≡ (
        json_response rec.status_code rec.response,
        count_metric
            (inc_mint (codes "cached"))
            (record t { records = (p.store.get b.readings.lookup k t.records).1 }),
      )
  serve_mint_cached b q q' k rec t path post same full signed h held =
      serve_mint p o cfg b q t path
      ∙ middleware_of_verify o.mac (hmac_verifier cfg) b.clock _ (with_request_id b q) q' t signed
      ∙ handle_mint_intents_cached p lawful cfg.service k rec b.readings (with_request_id b q) t
          ((with_request_id_frame b q).0 ∙ post) (mint_key-with_request_id b q ∙ same) full h held

  -- A signed callback whose key has a record, before the record's end.
  pub serve_callback_cached :
      (b : Arrival) (q q' : Request) (payload : MpesaCallbackRequest) (rec : Record) (t : State p)
      → q.path ≡ callback_path
      → q.method ≡ codes "POST"
      → p.codec.decode_mpesa_callback (body_text q.body) ≡ some payload
      → validate_mpesa_request payload ≡ none
      → verify o.mac (mpesa_verifier cfg) b.clock (with_request_id b q) ≡ ok q'
      → b.readings.lookup ≤ℤ rec.expires_at
      → Holds lawful (mpesa_key payload) rec t.records
      → serve p o cfg b q t ≡ (
        json_response rec.status_code rec.response,
        count_metric (inc_callback (codes "cached")) (record t {
          records = (p.store.get b.readings.lookup (mpesa_key payload) t.records).1;
        }),
      )
  serve_callback_cached b q q' payload rec t path post decoded valid signed h held =
      serve_callback p o cfg b q t path
      ∙ middleware_of_verify o.mac (mpesa_verifier cfg) b.clock _ (with_request_id b q) q' t signed
      ∙ handle_mpesa_callback_cached p lawful cfg.service cfg.retry b.cancelled (mpesa_key payload)
          rec b.readings (with_request_id b q) payload t ((with_request_id_frame b q).0 ∙ post)
          (ap (λ c. p.codec.decode_mpesa_callback (body_text c)) (with_request_id_frame b q).2
            ∙ decoded)
          valid refl h held
