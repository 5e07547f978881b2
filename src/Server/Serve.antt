-- ===== src/Server/Serve.antt =====
-- NewServer's routes and requestIDMiddleware of api/internal/server/server.go: from a request to the
-- handler's response.
pub mod Frame
pub mod Routes
pub mod Once
pub mod Restart
pub mod Shadow
pub mod Accounted
pub mod Kept
use railway.Base.{ℕ, false, Option, none, List, [], ◌∷◌, if◌then◌else◌}
use railway.Base.Int.{ℤ}
use railway.Text.{Text, codes, text_eq, is_empty}
use railway.Text.Print.{print_int}
use railway.Http.{Request, header_get, Response}
use railway.Config.{AppConfig}
use railway.Hmac.{Verifier, middleware}
use railway.Server.Defs.{Parts, State, MetricCall, Readings}
use railway.Server.Mint.{handle_mint_intents}
use railway.Server.Callback.{handle_mpesa_callback}
use railway.Server.Health.{Checks, HealthReply, handle_health}

abbrev pub hmac_verifier : AppConfig → Verifier
hmac_verifier cfg = record {
  secret = cfg.seed.secrets.hmac_salt;
  max_skew = cfg.service.hmac_clock_skew;
  now = none;
  body_copy = false;
  signature_header = [];
  timestamp_header = [];
}

abbrev pub mpesa_verifier : AppConfig → Verifier
mpesa_verifier cfg = record {
  secret = cfg.seed.secrets.mpesa_webhook_secret;
  max_skew = cfg.service.hmac_clock_skew;
  now = none;
  body_copy = false;
  signature_header = codes "X-Mpesa-Signature";
  timestamp_header = codes "X-Request-Timestamp";
}

-- r.Header.Set(name, value)
unfoldable pub header_set : Text → Text → List (Text × Text) → List (Text × Text)
header_set name value [] = (name, value) ∷ []
header_set name value ((k, v) ∷ hs) =
    let rest = header_set name value hs in if text_eq k name then rest else (k, v) ∷ rest

-- What a request meets: the clock in requestIDMiddleware and in the signature's check, the clock and
-- the context in the handler, and the health checks.
pub record Arrival : Type 0 where
  pub request_id : ℤ
  pub clock : ℤ
  pub readings : Readings
  pub cancelled : ℕ → ℤ → Option Text
  pub checks : Checks

unfoldable pub with_request_id : Arrival → Request → Request
with_request_id a r =
    if is_empty (header_get (codes "X-Request-Id") r.headers)
    then record r { headers = header_set (codes "X-Request-Id") (print_int a.request_id) r.headers }
    else r

-- The parts that are not the repository's: HMAC with SHA-256, the encoding of the health reply, the
-- page of the metrics' registry, and the answer of http.ServeMux to a path with no handler.
pub record Outside : Type 0 where
  pub mac : Text → Text → Text
  pub encode_health : HealthReply → Text
  pub metrics_page : Request → List MetricCall → Response
  pub not_found : Request → Response

module _ (p : Parts) (o : Outside) (cfg : AppConfig) where
  unfoldable pub route : Arrival → Request → State p → Response × State p
  route a r s =
      if text_eq r.path (codes "/api/v1/mint-intents")
      then middleware o.mac (hmac_verifier cfg) a.clock
          (handle_mint_intents p cfg.service a.readings) r s
      else if text_eq r.path (codes "/api/v1/callbacks/mpesa")
      then middleware o.mac (mpesa_verifier cfg) a.clock
          (handle_mpesa_callback p cfg.service cfg.retry a.cancelled a.readings) r s
      else if text_eq r.path (codes "/api/v1/metrics")
      then (o.metrics_page r s.metrics, s)
      else if text_eq r.path (codes "/api/v1/health")
      then handle_health p cfg.service o.encode_health a.checks s
      else (o.not_found r, s)

  unfoldable pub serve : Arrival → Request → State p → Response × State p
  serve a r s = route a (with_request_id a r) s

  -- A sequence of requests, one after the other.
  unfoldable pub serve_all : List (Arrival × Request) → State p → State p
  serve_all [] s = s
  serve_all ((a, r) ∷ rest) s = serve_all rest (serve a r s).1
