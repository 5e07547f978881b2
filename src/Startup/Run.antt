-- ===== src/Startup/Run.antt =====
-- The server that main started: its health functions in a request, requests one after the other, and
-- what main does after a signal. Shutdown is net/http's: it waits for the requests in work.
use railway.Base.{List, [], ◌∷◌, none, some}
use railway.Base.Int.{ℤ}
use railway.Http.{Request, Response}
use railway.Server.Defs.{State}
use railway.Server.Health.{Checks}
use railway.Server.Serve.{Arrival, Outside, serve}
use railway.Startup.{Service}
use mathlib.Core.Option.{map}

module _ (o : Outside) (svc : Service) where
  -- `latency` is what time.Since measures of the call of rpcHealthFn.
  abbrev pub checks_of : ℤ → State svc.parts → Checks
  checks_of latency s = record {
    rpc = map (λ ping. ping s.chain) svc.rpc_health;
    latency_us = latency;
    database = map (λ ping. ping s.records) svc.db_health;
  }

  unfoldable pub handle : Arrival → Request → State svc.parts → Response × State svc.parts
  handle a r s =
      serve svc.parts o svc.config (record a { checks = checks_of a.checks.latency_us s }) r s

  unfoldable pub handle_all : List (Arrival × Request) → State svc.parts → State svc.parts
  handle_all [] s = s
  handle_all ((a, r) ∷ rest) s = handle_all rest (handle a r s).1

  -- `if storeCloser != nil { storeCloser() }`
  unfoldable pub close_part : State svc.parts → State svc.parts
  close_part s = elim svc.store_closer [
    | none ↦ s
    | some close ↦ record s { records = close s.records }
  ]

  -- Requests until the signal, and the end of main.
  unfoldable pub run : List (Arrival × Request) → State svc.parts
  run requests = close_part (handle_all requests svc.state)
