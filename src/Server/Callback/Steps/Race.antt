-- ===== src/Server/Callback/Steps/Race.antt =====
-- Two callbacks for one payment that run at the same time.
use railway.Base.{ℕ, ◌≡◌, refl, Option, none, some, List, [], ◌∷◌, ◌∙◌}
use railway.Base.Int.{ℤ, ◌≤ℤ◌}
use railway.Base.Result.{ok}
use railway.Text.{Text, codes}
use railway.Http.{Request, json_response}
use railway.Idempotency.{IsLawful, live}
use railway.Escrow.{ExecuteMintResponse}
use railway.Config.{ServiceConfig, RetryConfig}
use railway.Server.Defs.{
  MpesaCallbackRequest, Parts, State, Readings, body_text, count_metric, inc_retry,
}
use railway.Server.Dlq.{update_dlq_depth}
use railway.Server.Callback.{mpesa_key, validate_mpesa_request, callback_body}
use railway.Server.Callback.Steps.{Stage, arrived, looked_up, minted, responded, callback_step}
use railway.Server.Interleave.{
  Handling, arrive, advance, interleave, IsLead, looks_up_after, looks_up_between, IsRest,
  saves_before, saves_between, saves_after,
}
use railway.Server.Callback.Steps.Paid.{IsPaid, lookup_missed, attempt_paid}

module _ (p : Parts) (cfg : ServiceConfig) (retry : RetryConfig) (cancelled : ℕ → ℤ → Option Text)
    (lawful : IsLawful p.store) where
  abbrev pub answered :
      Readings
      → Readings
      → Request
      → Request
      → MpesaCallbackRequest
      → MpesaCallbackRequest
      → ExecuteMintResponse
      → ExecuteMintResponse
      → List (Handling Stage)
  answered now later r q payload other resp second =
      record {
        now = now;
        request = r;
        stage =
            responded
              (json_response 200 (callback_body p cfg retry cancelled payload resp.tx_hash));
      }
      ∷ record {
        now = later;
        request = q;
        stage =
            responded
              (json_response 200 (callback_body p cfg retry cancelled other second.tx_hash));
      }
      ∷ []

  abbrev halfway :
      Readings
      → Readings
      → Request
      → Request
      → MpesaCallbackRequest
      → MpesaCallbackRequest
      → ExecuteMintResponse
      → List (Handling Stage)
  halfway now later r q payload other resp =
      record { now = now; request = r; stage = minted payload (ok resp.tx_hash) }
      ∷ record { now = later; request = q; stage = looked_up other none }
      ∷ []

  -- The second mint is called whether the first response has been saved or not.
  interleave_rest :
      (rest : List ℕ) (now later : Readings) (r q : Request) (payload other : MpesaCallbackRequest)
      (resp second : ExecuteMintResponse) (s : State p) (last : p.client.Chain)
      → IsRest rest
      → p.client.execute_mint other.intent_id s.chain ≡ (ok second, last)
      → ((interleave
            (callback_step p cfg retry cancelled)
            rest
            (halfway now later r q payload other resp, s)).0
          ≡ answered now later r q payload other resp second)
        × ((interleave
              (callback_step p cfg retry cancelled)
              rest
              (halfway now later r q payload other resp, s)).1.chain
            ≡ last)
  unfolding interleave advance callback_step update_dlq_depth
  interleave_rest _ now later r q payload other resp second s last saves_before paid =
      let saved =
        (callback_step p cfg retry cancelled now r (minted payload (ok resp.tx_hash)) s).1 in
      rw (attempt_paid p cfg retry cancelled lawful later q other second saved last paid)
        (refl, refl)
  interleave_rest _ now later r q payload other resp second s last saves_between paid =
      rw (attempt_paid p cfg retry cancelled lawful later q other second s last paid) (refl, refl)
  interleave_rest _ now later r q payload other resp second s last saves_after paid =
      rw (attempt_paid p cfg retry cancelled lawful later q other second s last paid) (refl, refl)

  -- The state after both lookups and the first mint.
  abbrev sent :
      Readings
      → Readings
      → MpesaCallbackRequest
      → MpesaCallbackRequest
      → State p
      → p.client.Chain
      → State p
  sent now later payload other s next =
      let looked = (p.store.get now.lookup (mpesa_key payload) s.records).1 in
      count_metric (inc_retry (codes "success"))
        (record s { records = (p.store.get later.lookup (mpesa_key other) looked).1; chain = next })

  still_missed :
      (now later : Readings) (payload other : MpesaCallbackRequest) (s : State p)
      → other.tx_ref ≡ payload.tx_ref
      → live later.lookup (lawful.view s.records (mpesa_key payload)) ≡ none
      → now.lookup ≤ℤ later.lookup
      → live later.lookup
          (lawful.view (p.store.get now.lookup (mpesa_key payload) s.records).1 (mpesa_key other))
        ≡ none
  still_missed now later payload other s same still order = rw same (
      lawful.live-get now.lookup later.lookup (mpesa_key payload) (mpesa_key payload) s.records
        order
      ∙ still)

  interleave_lead :
      (steps rest : List ℕ) (now later : Readings) (r q : Request)
      (payload other : MpesaCallbackRequest) (resp : ExecuteMintResponse) (s : State p)
      (next : p.client.Chain)
      → IsLead steps rest
      → other.tx_ref ≡ payload.tx_ref
      → q.method ≡ codes "POST"
      → p.codec.decode_mpesa_callback (body_text q.body) ≡ some other
      → validate_mpesa_request other ≡ none
      → live now.lookup (lawful.view s.records (mpesa_key payload)) ≡ none
      → live later.lookup (lawful.view s.records (mpesa_key payload)) ≡ none
      → now.lookup ≤ℤ later.lookup
      → IsPaid p cfg retry cancelled lawful r payload resp s.chain next
      → interleave
          (callback_step p cfg retry cancelled)
          steps
          (arrive arrived ((now, r) ∷ (later, q) ∷ []), s)
        ≡ interleave
            (callback_step p cfg retry cancelled)
            rest
            (halfway now later r q payload other resp, sent now later payload other s next)
  unfolding interleave advance
  interleave_lead _ _ now later r q payload other resp s next (looks_up_after rest) same post'
        decoded' valid' fresh still order (post, decoded, valid, paid) =
      let looked = record s {
        records = (p.store.get now.lookup (mpesa_key payload) s.records).1;
      } in
      let tried = count_metric (inc_retry (codes "success")) (record looked { chain = next }) in
      rw (
        lookup_missed p cfg retry cancelled lawful now r payload s post decoded valid fresh,
        attempt_paid p cfg retry cancelled lawful now r payload resp looked next paid,
        lookup_missed p cfg retry cancelled lawful later q other tried post' decoded' valid'
            (still_missed now later payload other s same still order),
      )
  interleave_lead _ _ now later r q payload other resp s next (looks_up_between rest) same post'
        decoded' valid' fresh still order (post, decoded, valid, paid) =
      let looked = record s {
        records = (p.store.get now.lookup (mpesa_key payload) s.records).1;
      } in
      let both = record looked {
        records = (p.store.get later.lookup (mpesa_key other) looked.records).1;
      } in
      rw (
        lookup_missed p cfg retry cancelled lawful now r payload s post decoded valid fresh,
        lookup_missed p cfg retry cancelled lawful later q other looked post' decoded' valid'
            (still_missed now later payload other s same still order),
        attempt_paid p cfg retry cancelled lawful now r payload resp both next paid,
      )

  -- Two valid callbacks are for the same payment, for which there is no live record, and the escrow
  -- takes both at the first attempt. If one looks up and mints first, and the other is looked up before
  -- the first response is saved, the mint is executed for both, and both are answered with 200 and the
  -- hash of their own transaction, in whatever order the other steps run.
  pub interleave_mints_twice :
      (steps rest : List ℕ) (now later : Readings) (r q : Request)
      (payload other : MpesaCallbackRequest) (resp second : ExecuteMintResponse) (s : State p)
      (next last : p.client.Chain)
      → IsLead steps rest
      → IsRest rest
      → other.tx_ref ≡ payload.tx_ref
      → live now.lookup (lawful.view s.records (mpesa_key payload)) ≡ none
      → live later.lookup (lawful.view s.records (mpesa_key payload)) ≡ none
      → now.lookup ≤ℤ later.lookup
      → IsPaid p cfg retry cancelled lawful r payload resp s.chain next
      → IsPaid p cfg retry cancelled lawful q other second next last
      → ((interleave
            (callback_step p cfg retry cancelled)
            steps
            (arrive arrived ((now, r) ∷ (later, q) ∷ []), s)).0
          ≡ answered now later r q payload other resp second)
        × ((interleave
              (callback_step p cfg retry cancelled)
              steps
              (arrive arrived ((now, r) ∷ (later, q) ∷ []), s)).1.chain
            ≡ last)
  interleave_mints_twice steps rest now later r q payload other resp second s next last begins
        follows same fresh still order paid (post', decoded', valid', paid') =
      rw
        (interleave_lead steps rest now later r q payload other resp s next begins same post'
          decoded' valid' fresh still order paid)
        (interleave_rest rest now later r q payload other resp second
          (sent now later payload other s next) last follows paid')
