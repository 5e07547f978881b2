-- ===== src/Examples/Requests.antt =====
-- The requests of the server, one after the other.
use railway.Base.{◌≡◌, refl, ◌∷◌, [], List, arith, none}
use railway.Base.Int.{ℤ, pos}
use railway.Base.Result.{ok}
use railway.Text.{Text, codes}
use railway.Http.{Request}
use railway.Idempotency.{live, Record, IsLawful}
use railway.Idempotency.Memory.{memory_store, memory_store-IsLawful}
use railway.Server.Defs.{State}
use railway.Server.Records.{Holds, save-Holds_self}
use railway.Server.Mint.Laws.{IsCreated}
use railway.Server.Retry.{execute_mint_with_retry}
use railway.Server.Callback.{mpesa_key}
use railway.Server.Callback.Laws.{looked_up}
use railway.Server.Serve.{Arrival, with_request_id, serve, serve_all}
use railway.Server.Accounts.{IsAccounted}
use railway.Server.Serve.Accounted.{serve_all-IsAccounted}
use railway.Server.Serve.Frame.{serve_all-Holds}
use railway.Server.Serve.Once.{serve_mint_once, serve_callback_once}
use railway.Server.Serve.Shadow.{serve_callback_shadowed}
use railway.Examples.Setting.{
  code, parts, outside, config, service, retry, start, at, mint_request, callback_request, payment,
}

abbrev lawful : IsLawful memory_store
lawful = memory_store-IsLawful

live_of_get :
    (t : ℤ) (k : Text) (s : memory_store.State)
    → (memory_store.get t k s).0 ≡ ok none
    → live t (lawful.view s k) ≡ none
live_of_get t k s e = cc (lawful.get-live t k s)

-- Nothing is live at the start.
pub start_fresh : (t : ℤ) (k : Text) → live t (lawful.view start.records k) ≡ none
unfolding code
start_fresh t k = live_of_get t k start.records refl

abbrev minted : Request
minted = mint_request (codes "k") (codes "1")

abbrev replayed : Request
replayed = mint_request (codes "k") (codes "2")

mint_created : (serve parts outside config (at 100) minted start).0.status ≡ 201
unfolding code
mint_created = refl

abbrev between : List (Arrival × Request)
between = (at 101, callback_request (codes "9")) ∷ (at 102, minted) ∷ []

serve_mint_once_example :
    IsCreated parts lawful service
      (at 100).readings
      (with_request_id (at 100) minted)
      start
      (serve parts outside config (at 100) minted start)
    × ((serve parts outside config (at 110) replayed (
          serve_all parts outside config between
            (serve parts outside config (at 100) minted start).1)).0
        ≡ (serve parts outside config (at 100) minted start).0)
    × ((serve parts outside config (at 110) replayed (
          serve_all parts outside config between
            (serve parts outside config (at 100) minted start).1)).1.chain
        ≡ (serve_all parts outside config between
            (serve parts outside config (at 100) minted start).1).chain)
unfolding code
serve_mint_once_example =
    serve_mint_once parts outside config lawful (at 100) (at 110) minted replayed
      (with_request_id (at 110) replayed) between start refl
      (start_fresh (pos 100000000000) (codes "k")) refl (omega arith) refl refl refl refl
      (omega arith)

abbrev paid : Request
paid = callback_request (codes "9")

-- The state that the retries of the payment leave: the second call succeeds.
abbrev after_mint : State parts
after_mint =
    (execute_mint_with_retry parts retry (at 100).cancelled (codes "9") (
      looked_up parts lawful service retry (at 100).cancelled (at 100).readings
        (payment (codes "9")) start)).1

serve_callback_once_example :
    ((serve parts outside config (at 100) paid start).1.chain ≡ after_mint.chain)
    × ((serve parts outside config (at 110) paid (
          serve_all parts outside config between
            (serve parts outside config (at 100) paid start).1)).0
        ≡ (serve parts outside config (at 100) paid start).0)
    × ((serve parts outside config (at 110) paid (
          serve_all parts outside config between
            (serve parts outside config (at 100) paid start).1)).1.chain
        ≡ (serve_all parts outside config between
            (serve parts outside config (at 100) paid start).1).chain)
unfolding code
serve_callback_once_example =
    serve_callback_once parts outside config lawful (at 100) (at 110) paid
      (with_request_id (at 100) paid) paid (with_request_id (at 110) paid) (payment (codes "9"))
      (payment (codes "9")) (codes "0xhash") between start after_mint refl refl refl refl refl
      (start_fresh (pos 100000000000) (mpesa_key (payment (codes "9")))) refl (omega arith) refl
      refl refl refl refl refl (omega arith)

-- The mint was called twice for it.
callback_calls : (serve parts outside config (at 100) paid start).1.chain ≡ 2
unfolding code
callback_calls = refl

abbrev poisoned : Request
poisoned = mint_request (codes "mpesa:9") (codes "1")

poison_created : (serve parts outside config (at 100) poisoned start).0.status ≡ 201
unfolding code
poison_created = refl

serve_callback_shadowed_example :
    ((serve parts outside config (at 110) paid (
        serve_all parts outside config [] (serve parts outside config (at 100) poisoned start).1)).0
      ≡ (serve parts outside config (at 100) poisoned start).0)
    × ((serve parts outside config (at 110) paid (
          serve_all parts outside config []
            (serve parts outside config (at 100) poisoned start).1)).1.chain
        ≡ (serve_all parts outside config []
            (serve parts outside config (at 100) poisoned start).1).chain)
unfolding code
serve_callback_shadowed_example =
    serve_callback_shadowed parts outside config lawful (at 100) (at 110) poisoned paid
      (with_request_id (at 110) paid) (payment (codes "9")) [] start refl refl
      (start_fresh (pos 100000000000) (codes "mpesa:9")) refl tt refl refl refl refl refl
      (omega arith)

abbrev kept : Record
kept = record {
  status_code = 200;
  response = codes "r";
  created_at = pos 0;
  expires_at = pos 200000000000;
}

abbrev holding : State parts
holding = record start { records = (memory_store.save (codes "k") kept start.records).1 }

serve_all-Holds_example :
    Holds lawful (codes "k") kept (serve_all parts outside config between holding).records
serve_all-Holds_example =
    serve_all-Holds parts outside config lawful (codes "k") kept between holding (omega arith)
      (save-Holds_self lawful (codes "k") kept start.records)

serve_all-IsAccounted_example :
    IsAccounted parts start (serve_all parts outside config between start)
serve_all-IsAccounted_example = serve_all-IsAccounted parts outside config between start
