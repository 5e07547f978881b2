-- ===== src/Server/Mint/Steps/Race.antt =====
-- Two mint requests with one key that run at the same time.
use railway.Base.{ℕ, ◌≡◌, ◌≢◌, refl, none, some, List, [], ◌∷◌, ◌∙◌, sym}
use railway.Base.Int.{◌≤ℤ◌}
use railway.Base.Result.{ok}
use railway.Text.{codes, text_eq_iff, is_empty_of_ne}
use railway.Http.{Request, json_response}
use railway.Idempotency.{IsLawful, live}
use railway.Escrow.{SubmitIntentResponse}
use railway.Config.{ServiceConfig}
use railway.Server.Defs.{MintIntentRequest, Parts, State, Readings, body_text}
use railway.Server.Records.{existing-live}
use railway.Server.Mint.{mint_key, validate_mint_intent_request, submission, mint_body}
use railway.Server.Mint.Steps.{Stage, arrived, looked_up, submitted, responded, mint_step}
use railway.Server.Interleave.{
  Handling, arrive, advance, interleave, IsLead, looks_up_after, looks_up_between, IsRest,
  saves_before, saves_between, saves_after,
}

module _ (p : Parts) (cfg : ServiceConfig) (lawful : IsLawful p.store) where
  -- A valid request whose submission the escrow takes.
  abbrev pub IsTaken :
      Request → MintIntentRequest → SubmitIntentResponse → p.client.Chain → p.client.Chain → Type 0
  IsTaken r payload result chain next =
      (r.method ≡ codes "POST")
      × (p.codec.decode_mint_intent (body_text r.body) ≡ some payload)
      × (validate_mint_intent_request payload ≡ none)
      × (p.client.submit_intent (submission payload) chain ≡ (ok result, next))

  lookup_missed :
      (now : Readings) (r : Request) (s : State p)
      → r.method ≡ codes "POST"
      → mint_key r ≢ []
      → live now.lookup (lawful.view s.records (mint_key r)) ≡ none
      → mint_step p cfg now r arrived s
        ≡ (looked_up none, record s { records = (p.store.get now.lookup (mint_key r) s.records).1 })
  unfolding mint_step
  lookup_missed now r s post full fresh = rw (
    (text_eq_iff _ _).1 post,
    is_empty_of_ne (mint_key r) full,
    existing-live lawful now.lookup (mint_key r) s.records,
    fresh,
  )

  submit_taken :
      (now : Readings) (r : Request) (payload : MintIntentRequest) (result : SubmitIntentResponse)
      (s : State p) (next : p.client.Chain)
      → IsTaken r payload result s.chain next
      → mint_step p cfg now r (looked_up none) s
        ≡ (submitted (ok result), record s { chain = next })
  unfolding mint_step
  submit_taken now r payload result s next (post, decoded, valid, sent) = rw (decoded, valid, sent)

  abbrev pub answered :
      Readings
      → Readings
      → Request
      → Request
      → SubmitIntentResponse
      → SubmitIntentResponse
      → List (Handling Stage)
  answered now later r q result second =
      record {
        now = now;
        request = r;
        stage = responded (json_response 201 (mint_body p cfg result));
      }
      ∷ record {
        now = later;
        request = q;
        stage = responded (json_response 201 (mint_body p cfg second));
      }
      ∷ []

  abbrev halfway :
      Readings → Readings → Request → Request → SubmitIntentResponse → List (Handling Stage)
  halfway now later r q result =
      record { now = now; request = r; stage = submitted (ok result) }
      ∷ record { now = later; request = q; stage = looked_up none }
      ∷ []

  -- The second submission is taken whether the first response has been saved or not.
  interleave_rest :
      (rest : List ℕ) (now later : Readings) (r q : Request) (other : MintIntentRequest)
      (result second : SubmitIntentResponse) (s : State p) (last : p.client.Chain)
      → IsRest rest
      → IsTaken q other second s.chain last
      → ((interleave (mint_step p cfg) rest (halfway now later r q result, s)).0
          ≡ answered now later r q result second)
        × ((interleave (mint_step p cfg) rest (halfway now later r q result, s)).1.chain ≡ last)
  unfolding interleave advance mint_step
  interleave_rest _ now later r q other result second s last saves_before taken =
      let saved = (mint_step p cfg now r (submitted (ok result)) s).1 in
      rw (submit_taken later q other second saved last taken) (refl, refl)
  interleave_rest _ now later r q other result second s last saves_between taken =
      rw (submit_taken later q other second s last taken) (refl, refl)
  interleave_rest _ now later r q other result second s last saves_after taken =
      rw (submit_taken later q other second s last taken) (refl, refl)

  -- The state after both lookups and the first submission.
  abbrev sent : Readings → Readings → Request → Request → State p → p.client.Chain → State p
  sent now later r q s next =
      let looked = record s { records = (p.store.get now.lookup (mint_key r) s.records).1 } in
      record s { records = (p.store.get later.lookup (mint_key q) looked.records).1; chain = next }

  still_missed :
      (now later : Readings) (r q : Request) (s : State p)
      → mint_key q ≡ mint_key r
      → live later.lookup (lawful.view s.records (mint_key r)) ≡ none
      → now.lookup ≤ℤ later.lookup
      → live later.lookup
          (lawful.view (p.store.get now.lookup (mint_key r) s.records).1 (mint_key q))
        ≡ none
  still_missed now later r q s same still order =
      rw same
        (lawful.live-get now.lookup later.lookup (mint_key r) (mint_key r) s.records order ∙ still)

  interleave_lead :
      (steps rest : List ℕ) (now later : Readings) (r q : Request) (payload : MintIntentRequest)
      (result : SubmitIntentResponse) (s : State p) (next : p.client.Chain)
      → IsLead steps rest
      → mint_key r ≢ []
      → mint_key q ≡ mint_key r
      → q.method ≡ codes "POST"
      → live now.lookup (lawful.view s.records (mint_key r)) ≡ none
      → live later.lookup (lawful.view s.records (mint_key r)) ≡ none
      → now.lookup ≤ℤ later.lookup
      → IsTaken r payload result s.chain next
      → interleave (mint_step p cfg) steps (arrive arrived ((now, r) ∷ (later, q) ∷ []), s)
        ≡ interleave
            (mint_step p cfg)
            rest
            (halfway now later r q result, sent now later r q s next)
  unfolding interleave advance
  interleave_lead _ _ now later r q payload result s next (looks_up_after rest) full same post fresh
        still order taken =
      let looked = record s { records = (p.store.get now.lookup (mint_key r) s.records).1 } in
      rw (
        lookup_missed now r s taken.0 full fresh,
        submit_taken now r payload result looked next taken,
        lookup_missed later q (record looked { chain = next }) post (λ h. full (sym same ∙ h))
            (still_missed now later r q s same still order),
      )
  interleave_lead _ _ now later r q payload result s next (looks_up_between rest) full same post
        fresh still order taken =
      let looked = record s { records = (p.store.get now.lookup (mint_key r) s.records).1 } in
      let both = record looked {
        records = (p.store.get later.lookup (mint_key q) looked.records).1;
      } in
      rw (
        lookup_missed now r s taken.0 full fresh,
        lookup_missed later q looked post (λ h. full (sym same ∙ h))
            (still_missed now later r q s same still order),
        submit_taken now r payload result both next taken,
      )

  -- Two valid mint requests have the same key, for which there is no live record, and the escrow
  -- takes both submissions. If one looks up and submits first, and the other is looked up before the
  -- first response is saved, both are submitted and both are answered with 201 and the response of
  -- their own submission, in whatever order the other steps run.
  pub interleave_submits_twice :
      (steps rest : List ℕ) (now later : Readings) (r q : Request)
      (payload other : MintIntentRequest) (result second : SubmitIntentResponse) (s : State p)
      (next last : p.client.Chain)
      → IsLead steps rest
      → IsRest rest
      → mint_key r ≢ []
      → mint_key q ≡ mint_key r
      → live now.lookup (lawful.view s.records (mint_key r)) ≡ none
      → live later.lookup (lawful.view s.records (mint_key r)) ≡ none
      → now.lookup ≤ℤ later.lookup
      → IsTaken r payload result s.chain next
      → IsTaken q other second next last
      → ((interleave (mint_step p cfg) steps (arrive arrived ((now, r) ∷ (later, q) ∷ []), s)).0
          ≡ answered now later r q result second)
        × ((interleave
              (mint_step p cfg)
              steps
              (arrive arrived ((now, r) ∷ (later, q) ∷ []), s)).1.chain
            ≡ last)
  interleave_submits_twice steps rest now later r q payload other result second s next last begins
        follows full same fresh still order taken again =
      rw
        (interleave_lead steps rest now later r q payload result s next begins full same again.0
          fresh still order taken)
        (interleave_rest rest now later r q other result second (sent now later r q s next) last
          follows again)
