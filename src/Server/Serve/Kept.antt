-- ===== src/Server/Serve/Kept.antt =====
-- What a sequence of requests, callbacks apart, keeps of the store.
use railway.Base.{List, [], ◌∷◌, ◌≡◌, false, subst, sym}
use railway.Text.{Text, text_eq}
use railway.Http.{Request}
use railway.Config.{AppConfig}
use railway.Server.Defs.{Parts, State}
use railway.Server.Kept.{IsKept, OfRecords}
use railway.Server.Dlq.{update_dlq_depth}
use railway.Server.Mint.{mint_key}
use railway.Server.Mint.Kept.{handle_mint_intents_keeps}
use railway.Server.Health.{handle_health}
use railway.Server.Serve.{Arrival, with_request_id, Outside, serve, serve_all}
use railway.Server.Serve.Frame.{route_keeps}
use railway.Server.Serve.Routes.{callback_path, mint_key-with_request_id, path-with_request_id}

module _ {κ} (p : Parts) (o : Outside) (cfg : AppConfig) (K : Text → Type 0)
    (P : p.store.State → Type κ) where
  -- A request that is no callback, and whose key for a mint is one of `K`.
  abbrev pub IsNamed : Request → Type 0
  IsNamed r = (text_eq r.path callback_path ≡ false) × K (mint_key r)

  health_keeps :
      (a : Arrival) (s : State p)
      → P s.records
      → P (handle_health p cfg.service o.encode_health a.checks s).1.records
  unfolding handle_health update_dlq_depth
  health_keeps a s h = h

  pub serve_keeps :
      (a : Arrival) (r : Request) (s : State p)
      → IsKept p cfg.service K P a.readings
      → IsNamed r
      → P s.records
      → P (serve p o cfg a r s).1.records
  unfolding serve
  serve_keeps a r s kept (other, named) h =
      route_keeps p o cfg (OfRecords p cfg.service P) a (with_request_id a r) s h
        (handle_mint_intents_keeps p cfg.service K P a.readings kept (with_request_id a r) s
          (subst K (sym (mint_key-with_request_id a r)) named) h)
        (λ callback. absurd (cc (other, callback, path-with_request_id a r))) (health_keeps a s h)

  -- What the calls of every request keep.
  abbrev pub AllKept : List (Arrival × Request) → Type κ
  AllKept [] = Unit
  AllKept ((a, r) ∷ rest) = IsKept p cfg.service K P a.readings × IsNamed r × AllKept rest

  pub serve_all_keeps :
      (requests : List (Arrival × Request)) (s : State p)
      → AllKept requests
      → P s.records
      → P (serve_all p o cfg requests s).records
  unfolding serve_all
  serve_all_keeps [] s kept h = h
  serve_all_keeps ((a, r) ∷ rest) s (kept, named, all) h =
      serve_all_keeps rest _ all (serve_keeps a r s kept named h)
