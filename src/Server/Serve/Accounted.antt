-- ===== src/Server/Serve/Accounted.antt =====
-- The account of a sequence of requests.
use railway.Base.{List, [], ◌∷◌, refl}
use railway.Http.{Request}
use railway.Config.{AppConfig}
use railway.Server.Serve.Frame.{route_keeps}
use railway.Server.Defs.{Parts, State}
use railway.Server.Accounts.{IsAccounted, unchanged, followed}
use railway.Server.Dlq.Accounted.{update_dlq_depth-IsAccounted}
use railway.Server.Mint.Accounted.{handle_mint_intents-IsAccounted}
use railway.Server.Callback.Accounted.{handle_mpesa_callback-IsAccounted}
use railway.Server.Health.{handle_health}
use railway.Server.Serve.{Arrival, with_request_id, Outside, route, serve, serve_all}

module _ (p : Parts) (o : Outside) (cfg : AppConfig) where
  health-IsAccounted :
      (a : Arrival) (s : State p)
      → IsAccounted p s (handle_health p cfg.service o.encode_health a.checks s).1
  unfolding handle_health
  health-IsAccounted a s = update_dlq_depth-IsAccounted p cfg.service s

  route-IsAccounted :
      (a : Arrival) (r : Request) (s : State p) → IsAccounted p s (route p o cfg a r s).1
  route-IsAccounted a r s =
      route_keeps p o cfg (IsAccounted p s) a r s (unchanged p s s refl refl)
        (handle_mint_intents-IsAccounted p cfg.service a.readings r s)
        (λ _. handle_mpesa_callback-IsAccounted p cfg.service cfg.retry a.cancelled a.readings r s)
        (health-IsAccounted a s)

  -- A sequence of requests, of any kinds, genuine or forged, changes the chain by calls of
  -- SubmitIntent and ExecuteMint only. The metrics gain as many mint requests with a result other
  -- than "cached" as there are calls of SubmitIntent, and as many attempts as there are calls of
  -- ExecuteMint.
  pub serve_all-IsAccounted :
      (requests : List (Arrival × Request)) (s : State p)
      → IsAccounted p s (serve_all p o cfg requests s)
  unfolding serve_all serve
  serve_all-IsAccounted [] s = unchanged p s s refl refl
  serve_all-IsAccounted ((a, r) ∷ rest) s =
      followed p s (serve p o cfg a r s).1 _ (route-IsAccounted a (with_request_id a r) s)
        (serve_all-IsAccounted rest _)
