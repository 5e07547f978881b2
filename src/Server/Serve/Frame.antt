-- ===== src/Server/Serve/Frame.antt =====
-- What a request of any kind leaves alone, and how requests reach their handlers.
use railway.Base.{◌≡◌, true, false, [], ◌∷◌, List, arith, Bool-cases, inl, inr}
use railway.Base.Int.{ℤ, ◌≤ℤ◌}
use railway.Text.{Text, codes, text_eq, text_eq_iff}
use railway.Text.Print.{print_int}
use railway.Http.{Request, header_get}
use railway.Config.{AppConfig}
use railway.Idempotency.{Record, IsLawful}
use railway.Hmac.Laws.{middleware_keeps}
use railway.Server.Defs.{Parts, State}
use railway.Server.Records.{Holds}
use railway.Server.Dlq.{update_dlq_depth}
use railway.Server.Mint.{handle_mint_intents}
use railway.Server.Mint.Laws.{handle_mint_intents-Holds}
use railway.Server.Callback.{handle_mpesa_callback}
use railway.Server.Callback.Laws.{handle_mpesa_callback-Holds}
use railway.Server.Health.{handle_health}
use railway.Server.Serve.{
  hmac_verifier, mpesa_verifier, header_set, Arrival, with_request_id, Outside, route, serve,
  serve_all,
}

header_get-header_set :
    (name other v : Text) (hs : List (Text × Text))
    → text_eq other name ≡ false
    → header_get name (header_set other v hs) ≡ header_get name hs
unfolding header_get header_set
header_get-header_set name other v [] h = rw h
header_get-header_set name other v ((k, w) ∷ hs) h = ground (
  arith,
  header_get-header_set name other v hs h,
  text_eq_iff k name,
  text_eq_iff k other,
  text_eq_iff other name,
)

-- The middleware for request ids changes no header but its own.
pub header_get-with_request_id :
    (a : Arrival) (r : Request) (name : Text)
    → text_eq (codes "X-Request-Id") name ≡ false
    → header_get name (with_request_id a r).headers ≡ header_get name r.headers
unfolding with_request_id
header_get-with_request_id a r name h =
    ground (
      arith,
      header_get-header_set name (codes "X-Request-Id") (print_int a.request_id) r.headers h,
    )

-- It changes nothing but the headers.
pub with_request_id_frame :
    (a : Arrival) (r : Request)
    → ((with_request_id a r).method ≡ r.method)
      × ((with_request_id a r).path ≡ r.path)
      × ((with_request_id a r).body ≡ r.body)
unfolding with_request_id
with_request_id_frame a r = ground arith

-- Every request of a sequence looks up at `t` at the latest.
abbrev pub AllBefore : ℤ → List (Arrival × Request) → Type 0
AllBefore t [] = Unit
AllBefore t ((a, r) ∷ rest) = (a.readings.lookup ≤ℤ t) × AllBefore t rest

module _ (p : Parts) (o : Outside) (cfg : AppConfig) where
  -- What holds of the state before a request, and of what each of the handlers would make of it, holds
  -- after the request.
  pub route_keeps {κ} :
      (P : State p → Type κ) (a : Arrival) (r : Request) (s : State p)
      → P s
      → P (handle_mint_intents p cfg.service a.readings r s).1
      → (text_eq r.path (codes "/api/v1/callbacks/mpesa") ≡ true
          → P (handle_mpesa_callback p cfg.service cfg.retry a.cancelled a.readings r s).1)
      → P (handle_health p cfg.service o.encode_health a.checks s).1
      → P (route p o cfg a r s).1
  unfolding route
  route_keeps P a r s same minted called checked =
      elim (Bool-cases (text_eq r.path (codes "/api/v1/mint-intents"))) [
        | inl mint ↦ rw mint (
            middleware_keeps o.mac P (hmac_verifier cfg) a.clock
              (handle_mint_intents p cfg.service a.readings) r s same minted)
        | inr e1 ↦ elim (Bool-cases (text_eq r.path (codes "/api/v1/callbacks/mpesa"))) [
          | inl callback ↦
              rw (e1, callback)
                (middleware_keeps o.mac P (mpesa_verifier cfg) a.clock
                  (handle_mpesa_callback p cfg.service cfg.retry a.cancelled a.readings) r s same
                  (called callback))
          | inr e2 ↦ elim (Bool-cases (text_eq r.path (codes "/api/v1/metrics"))) [
            | inl metrics ↦ rw (e1, e2, metrics) same
            | inr e3 ↦ elim (Bool-cases (text_eq r.path (codes "/api/v1/health"))) [
              | inl health ↦ rw (e1, e2, e3, health) checked
              | inr e4 ↦ rw (e1, e2, e3, e4) same
            ]
          ]
        ]
      ]

module _ (p : Parts) (o : Outside) (cfg : AppConfig) (lawful : IsLawful p.store) (k : Text)
    (rec : Record) where
  health-Holds :
      (a : Arrival) (s : State p)
      → Holds lawful k rec s.records
      → Holds lawful k rec (handle_health p cfg.service o.encode_health a.checks s).1.records
  unfolding handle_health update_dlq_depth
  health-Holds a s h = h

  route-Holds :
      (a : Arrival) (r : Request) (s : State p)
      → a.readings.lookup ≤ℤ rec.expires_at
      → Holds lawful k rec s.records
      → Holds lawful k rec (route p o cfg a r s).1.records
  route-Holds a r s h held =
      route_keeps p o cfg (λ t. Holds lawful k rec t.records) a r s held
        (handle_mint_intents-Holds p lawful cfg.service k rec a.readings r s h held)
        (λ _.
          handle_mpesa_callback-Holds p lawful cfg.service cfg.retry a.cancelled k rec a.readings r
            s h held)
        (health-Holds a s held)

  -- A request of any kind, genuine or forged, that looks up before a record's end leaves the record.
  pub serve-Holds :
      (a : Arrival) (r : Request) (s : State p)
      → a.readings.lookup ≤ℤ rec.expires_at
      → Holds lawful k rec s.records
      → Holds lawful k rec (serve p o cfg a r s).1.records
  unfolding serve
  serve-Holds a r s h held = route-Holds a (with_request_id a r) s h held

  -- A sequence of requests, of any kinds, that look up before a record's end neither removes the
  -- record nor changes it.
  pub serve_all-Holds :
      (requests : List (Arrival × Request)) (s : State p)
      → AllBefore rec.expires_at requests
      → Holds lawful k rec s.records
      → Holds lawful k rec (serve_all p o cfg requests s).records
  unfolding serve_all
  serve_all-Holds [] s h held = held
  serve_all-Holds ((a, r) ∷ rest) s (h, hs) held =
      serve_all-Holds rest _ hs (serve-Holds a r s h held)
