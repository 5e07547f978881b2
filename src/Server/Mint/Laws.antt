-- ===== src/Server/Mint/Laws.antt =====
-- What a mint request does to a record that the store holds, and what a new one leaves there.
use railway.Base.{
  ◌≡◌, refl, ◌≢◌, Option, none, some, true, false, [], arith, sym, subst, Bool-cases, Option-cases,
  inl, inr,
}
use railway.Base.Int.{◌≤ℤ◌}
use railway.Base.Result.{Result, ok, err, Result-cases}
use railway.Text.{Text, codes, text_eq, text_eq_iff, is_empty, is_empty_of_ne}
use railway.Http.{Request, Response, http_error, json_response}
use railway.Idempotency.{Record, live, IsLawful}
use railway.Escrow.{SubmitIntentResponse}
use railway.Config.{ServiceConfig}
use railway.Server.Defs.{
  MintIntentRequest, inc_mint, Parts, State, count_metric, Readings, body_text, existing,
}
use railway.Server.Records.{
  Holds, get-Holds, existing-get, missed-ne, save-Holds, save-Holds_self, existing-live,
}
use railway.Server.Mint.{
  mint_key, respond_mint, submit_valid, submit_decoded, mint_after_lookup, handle_mint_intents,
  validate_mint_intent_request, saved_record, mint_body, submission,
}

module _ (p : Parts) (lawful : IsLawful p.store) (cfg : ServiceConfig) where
  module _ (k : Text) (rec : Record) (now : Readings) where
    respond_mint-Holds :
        (key : Text) (result : Result SubmitIntentResponse) (s : State p)
        → text_eq key k ≡ false
        → Holds lawful k rec s.records
        → Holds lawful k rec (respond_mint p cfg now key result s).1.records
    respond_mint-Holds key (err e) s ne held = held
    respond_mint-Holds key (ok result) s ne held = save-Holds lawful key k rec _ s.records ne held

    submit_valid-Holds :
        (key : Text) (payload : MintIntentRequest) (invalid : Option Text) (s : State p)
        → text_eq key k ≡ false
        → Holds lawful k rec s.records
        → Holds lawful k rec (submit_valid p cfg now key payload invalid s).1.records
    submit_valid-Holds key payload (some e) s ne held = held
    submit_valid-Holds key payload none s ne held = respond_mint-Holds key _ _ ne held

    submit_decoded-Holds :
        (key : Text) (decoded : Option MintIntentRequest) (s : State p)
        → text_eq key k ≡ false
        → Holds lawful k rec s.records
        → Holds lawful k rec (submit_decoded p cfg now key decoded s).1.records
    submit_decoded-Holds key none s ne held = held
    submit_decoded-Holds key (some payload) s ne held = submit_valid-Holds key payload _ s ne held

    mint_after_lookup-Holds :
        (key : Text) (r : Request) (found : Option Record) (s : State p)
        → (found ≡ none → text_eq key k ≡ false)
        → Holds lawful k rec s.records
        → Holds lawful k rec (mint_after_lookup p cfg now key r found s).1.records
    unfolding mint_after_lookup
    mint_after_lookup-Holds key r (some other) s ne held = held
    mint_after_lookup-Holds key r none s ne held = submit_decoded-Holds key _ s (ne refl) held

    looked_up-Holds :
        (key : Text) (r : Request) (s : State p)
        → now.lookup ≤ℤ rec.expires_at
        → Holds lawful k rec s.records
        → Holds lawful k rec
            (mint_after_lookup p cfg now key r
              (existing (p.store.get now.lookup key s.records).0)
              (record s { records = (p.store.get now.lookup key s.records).1 })).1.records
    looked_up-Holds key r s h held =
        mint_after_lookup-Holds key r _ _ (missed-ne lawful now.lookup key k rec s.records h held)
          (get-Holds lawful now.lookup key k rec s.records h held)

    -- A mint request, for whatever key, that looks up before a record's end leaves the record.
    pub handle_mint_intents-Holds :
        (r : Request) (s : State p)
        → now.lookup ≤ℤ rec.expires_at
        → Holds lawful k rec s.records
        → Holds lawful k rec (handle_mint_intents p cfg now r s).1.records
    unfolding handle_mint_intents
    handle_mint_intents-Holds r s h held = elim (Bool-cases (text_eq r.method (codes "POST"))) [
      | inl post ↦ elim (Bool-cases (is_empty (mint_key r))) [
        | inl empty ↦ rw (post, empty) held
        | inr full ↦ rw (post, full) (looked_up-Holds (mint_key r) r s h held)
      ]
      | inr other ↦ rw other held
    ]

    -- A request for the record's key is answered from the record, and calls nothing on the chain.
    pub handle_mint_intents_cached :
        (r : Request) (s : State p)
        → r.method ≡ codes "POST"
        → mint_key r ≡ k
        → k ≢ []
        → now.lookup ≤ℤ rec.expires_at
        → Holds lawful k rec s.records
        → handle_mint_intents p cfg now r s ≡ (
          json_response rec.status_code rec.response,
          count_metric
              (inc_mint (codes "cached"))
              (record s { records = (p.store.get now.lookup k s.records).1 }),
        )
    unfolding handle_mint_intents mint_after_lookup
    handle_mint_intents_cached r s post same full h held = rw (
      (text_eq_iff _ _).1 post,
      same,
      is_empty_of_ne k full,
      existing-get lawful now.lookup k rec s.records h held,
      mint_after_lookup,
    )

  -- A response of 201 that was not read from the store: the body was decoded and found valid, the
  -- intent was submitted, and the response is kept under the key until the end of the window.
  abbrev pub IsCreated : Readings → Request → State p → Response × State p → Type 0
  IsCreated now r s out =
      (payload : MintIntentRequest) × (result : SubmitIntentResponse) × (p.codec.decode_mint_intent
          (body_text r.body)
        ≡ some payload)
      × (validate_mint_intent_request payload ≡ none)
      × (p.client.submit_intent (submission payload) s.chain ≡ (ok result, out.1.chain))
      × (out.0 ≡ json_response 201 (mint_body p cfg result))
      × Holds lawful (mint_key r) (saved_record p cfg now 201 (mint_body p cfg result))
          out.1.records

  mint_after_lookup-IsCreated :
      (now : Readings) (r : Request) (s : State p)
      → (mint_after_lookup p cfg now (mint_key r) r none s).0.status ≡ 201
      → IsCreated now r s (mint_after_lookup p cfg now (mint_key r) r none s)
  unfolding mint_after_lookup http_error json_response
  mint_after_lookup-IsCreated now r s e =
      elim (Option-cases (p.codec.decode_mint_intent (body_text r.body))) [
        | inl bad ↦ absurd (ground arith)
        | inr (payload, decoded) ↦ elim (Option-cases (validate_mint_intent_request payload)) [
          | inr (m, bad) ↦ absurd (ground arith)
          | inl valid ↦
              elim (Result-cases (p.client.submit_intent (submission payload) s.chain).0) [
                | inl (m, bad) ↦ absurd (ground arith)
                | inr (result, submitted) ↦ (
                  payload,
                  result,
                  decoded,
                  valid,
                  ground arith,
                  ground arith,
                  ground (
                    arith,
                    save-Holds_self lawful (mint_key r)
                        (saved_record p cfg now 201 (mint_body p cfg result)) s.records,
                  ),
                )
              ]
        ]
      ]

  handle_mint_intents_missed :
      (now : Readings) (r : Request) (s : State p)
      → text_eq r.method (codes "POST") ≡ true
      → is_empty (mint_key r) ≡ false
      → live now.lookup (lawful.view s.records (mint_key r)) ≡ none
      → handle_mint_intents p cfg now r s
        ≡ mint_after_lookup p cfg now
            (mint_key r)
            r
            none
            (record s { records = (p.store.get now.lookup (mint_key r) s.records).1 })
  unfolding handle_mint_intents
  handle_mint_intents_missed now r s post full fresh =
      rw (post, full, existing-live lawful now.lookup (mint_key r) s.records, fresh)

  -- A request for a key with no live record that is answered with 201 has created an intent.
  pub handle_mint_intents-IsCreated :
      (now : Readings) (r : Request) (s : State p)
      → live now.lookup (lawful.view s.records (mint_key r)) ≡ none
      → (handle_mint_intents p cfg now r s).0.status ≡ 201
      → (r.method ≡ codes "POST")
        × (mint_key r ≢ [])
        × IsCreated now r s (handle_mint_intents p cfg now r s)
  unfolding handle_mint_intents http_error
  handle_mint_intents-IsCreated now r s fresh e =
      elim (Bool-cases (text_eq r.method (codes "POST"))) [
        | inr other ↦ absurd (ground arith)
        | inl post ↦ elim (Bool-cases (is_empty (mint_key r))) [
          | inl empty ↦ absurd (ground arith)
          | inr full ↦
              let missed = handle_mint_intents_missed now r s post full fresh in
              (
                (text_eq_iff _ _).0 post,
                ground arith,
                subst (λ out. IsCreated now r s out) (sym missed)
                    (mint_after_lookup-IsCreated now r _ (rw missed at e)),
              )
        ]
      ]
