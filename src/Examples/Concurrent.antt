-- ===== src/Examples/Concurrent.antt =====
-- Mint requests, and callbacks, that run at the same time.
use railway.Base.{ℕ, Option, none, ◌≡◌, refl, [], ◌∷◌, List, arith}
use railway.Base.Int.{ℤ, pos}
use railway.Text.{Text, codes, ne-nil_of_is_empty}
use railway.Http.{Request, json_response}
use railway.Idempotency.Memory.{memory_store-IsLawful}
use railway.Server.Defs.{State, Readings, MintIntentRequest}
use railway.Server.Mint.{mint_key}
use railway.Server.Mint.Steps.{arrived, responded, mint_step}
use railway.Server.Interleave.{
  arrive, interleave, looks_up_after, looks_up_between, saves_before, saves_after,
}
use railway.Server.Mint.Steps.Bound.{IsCalled, interleave-IsCalled}
use railway.Server.Mint.Steps.Race.{interleave_submits_twice}
use railway.Server.Callback.{mpesa_key}
use railway.Server.Callback.Steps as Callback
use railway.Server.Callback.Steps.{callback_step}
use railway.Server.Callback.Steps.Bound.{IsMinted, interleave-IsMinted}
use railway.Server.Callback.Steps.Race.{interleave_mints_twice}
use railway.Examples.Requests.{start_fresh}
use railway.Examples.Setting.{
  code, parts, service, retry, start, readings_at, mint_request, callback_request, payment,
}

abbrev never : ℕ → ℤ → Option Text
never i d = none

abbrev early : Request
early = mint_request (codes "k") (codes "1")

abbrev late : Request
late = mint_request (codes " k") (codes "2")

abbrev pair : List (Readings × Request)
pair = (readings_at 100, early) ∷ (readings_at 101, late) ∷ []

interleave-IsCalled_example :
    IsCalled parts service 2 0
      (interleave
        (mint_step parts service)
        (1 ∷ 0 ∷ 0 ∷ 1 ∷ 0 ∷ 1 ∷ [])
        (arrive arrived pair, start)).1.chain
interleave-IsCalled_example =
    interleave-IsCalled parts service (1 ∷ 0 ∷ 0 ∷ 1 ∷ 0 ∷ 1 ∷ []) pair start

abbrev fields : MintIntentRequest
fields = record {
  user_address = codes "1";
  amount = codes "1";
  country_code = codes "1";
  tx_ref = codes "1";
}

abbrev other_fields : MintIntentRequest
other_fields = record {
  user_address = codes "2";
  amount = codes "2";
  country_code = codes "2";
  tx_ref = codes "2";
}

interleave_submits_twice_example :
    ((interleave
        (mint_step parts service)
        (0 ∷ 0 ∷ 1 ∷ 0 ∷ 1 ∷ 1 ∷ [])
        (arrive arrived pair, start)).0
      ≡ record {
        now = readings_at 100;
        request = early;
        stage = responded (json_response 201 (codes "1submitted"));
      }
        ∷ record {
          now = readings_at 101;
          request = late;
          stage = responded (json_response 201 (codes "2submitted"));
        }
        ∷ [])
    × ((interleave
          (mint_step parts service)
          (0 ∷ 0 ∷ 1 ∷ 0 ∷ 1 ∷ 1 ∷ [])
          (arrive arrived pair, start)).1.chain
        ≡ 2)
unfolding code
interleave_submits_twice_example =
    interleave_submits_twice parts service memory_store-IsLawful _ _ (readings_at 100)
      (readings_at 101) early late fields other_fields
      (record { intent_id = codes "1"; tx_hash = [] })
      (record { intent_id = codes "2"; tx_hash = [] }) start 1 2 (looks_up_after _) saves_before
      (ne-nil_of_is_empty (mint_key early) refl) refl (start_fresh (pos 100000000000) (codes "k"))
      (start_fresh (pos 101000000000) (codes "k")) (omega arith) (refl, refl, refl, refl)
      (refl, refl, refl, refl)

-- The payment of a callback's body, whose mint has failed before: the chain has been called.
abbrev called_before : State parts
called_before = record start { chain = 5 }

abbrev callbacks : List (Readings × Request)
callbacks =
    (readings_at 100, callback_request (codes "9"))
    ∷ (readings_at 101, callback_request (codes "9"))
    ∷ []

interleave_mints_twice_example :
    ((interleave
        (callback_step parts service retry never)
        (0 ∷ 1 ∷ 0 ∷ 1 ∷ 1 ∷ 0 ∷ [])
        (arrive Callback.arrived callbacks, called_before)).0
      ≡ record {
        now = readings_at 100;
        request = callback_request (codes "9");
        stage = Callback.responded (json_response 200 (codes "processed0xhash"));
      }
        ∷ record {
          now = readings_at 101;
          request = callback_request (codes "9");
          stage = Callback.responded (json_response 200 (codes "processed0xhash"));
        }
        ∷ [])
    × ((interleave
          (callback_step parts service retry never)
          (0 ∷ 1 ∷ 0 ∷ 1 ∷ 1 ∷ 0 ∷ [])
          (arrive Callback.arrived callbacks, called_before)).1.chain
        ≡ 7)
unfolding code
interleave_mints_twice_example =
    interleave_mints_twice parts service retry never memory_store-IsLawful _ _ (readings_at 100)
      (readings_at 101) (callback_request (codes "9")) (callback_request (codes "9"))
      (payment (codes "9")) (payment (codes "9")) (record { tx_hash = codes "0xhash" })
      (record { tx_hash = codes "0xhash" }) called_before 6 7 (looks_up_between _) saves_after refl
      (start_fresh (pos 100000000000) (mpesa_key (payment (codes "9"))))
      (start_fresh (pos 101000000000) (mpesa_key (payment (codes "9")))) (omega arith)
      (refl, refl, refl, refl) (refl, refl, refl, refl)

interleave-IsMinted_example :
    IsMinted parts service retry never 12 0 0
      (interleave
        (callback_step parts service retry never)
        (1 ∷ 0 ∷ 0 ∷ 1 ∷ 0 ∷ 1 ∷ [])
        (arrive Callback.arrived callbacks, start)).1.chain
interleave-IsMinted_example =
    interleave-IsMinted parts service retry never (1 ∷ 0 ∷ 0 ∷ 1 ∷ 0 ∷ 1 ∷ []) callbacks start
