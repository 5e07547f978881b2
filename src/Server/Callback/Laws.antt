-- ===== src/Server/Callback/Laws.antt =====
-- What a callback does to a record that the store holds, and what a processed one leaves there.
use railway.Base.{
  ℕ, ◌≡◌, refl, Option, none, some, true, false, arith, sym, subst, Bool-cases, inl, inr,
}
use railway.Base.Int.{ℤ, ◌≤ℤ◌}
use railway.Base.Result.{Result, ok, err}
use railway.Text.{Text, codes, text_eq, text_eq_iff}
use railway.Http.{Request, json_response}
use railway.Idempotency.{Record, live, IsLawful}
use railway.Config.{RetryConfig, ServiceConfig}
use railway.Server.Defs.{
  MpesaCallbackRequest, inc_callback, Parts, State, count_metric, Readings, body_text,
}
use railway.Server.Records.{
  Holds, get-Holds, existing-get, missed-ne, save-Holds, save-Holds_self, existing-live,
}
use railway.Server.Retry.{execute_mint_with_retry}
use railway.Server.Retry.Frame.{execute_mint_with_retry_frame}
use railway.Server.Dlq.{update_dlq_depth}
use railway.Server.Dlq.Laws.{write_dlq_frame}
use railway.Server.Mint.{saved_record}
use railway.Server.Callback.{
  validate_mpesa_request, mpesa_key, callback_body, respond_callback, callback_after_lookup,
  process_valid, process_decoded, handle_mpesa_callback,
}

module _ (p : Parts) (lawful : IsLawful p.store) (cfg : ServiceConfig) (retry : RetryConfig)
    (cancelled : ℕ → ℤ → Option Text) where
  module _ (k : Text) (rec : Record) (now : Readings) where
    respond_callback-Holds :
        (payload : MpesaCallbackRequest) (result : Result Text) (s : State p)
        → text_eq (mpesa_key payload) k ≡ false
        → Holds lawful k rec s.records
        → Holds lawful k rec (respond_callback p cfg retry cancelled now payload result s).1.records
    unfolding update_dlq_depth
    respond_callback-Holds payload (err e) s ne held = ground (
      arith,
      write_dlq_frame p cfg now payload e (count_metric (inc_callback (codes "failed")) s),
    )
    respond_callback-Holds payload (ok hash) s ne held =
        save-Holds lawful (mpesa_key payload) k rec _ s.records ne held

    callback_after_lookup-Holds :
        (payload : MpesaCallbackRequest) (found : Option Record) (s : State p)
        → (found ≡ none → text_eq (mpesa_key payload) k ≡ false)
        → Holds lawful k rec s.records
        → Holds lawful k rec
            (callback_after_lookup p cfg retry cancelled now payload found s).1.records
    unfolding callback_after_lookup
    callback_after_lookup-Holds payload (some other) s ne held = held
    callback_after_lookup-Holds payload none s ne held =
        respond_callback-Holds payload _ _ (ne refl) (
          subst (λ t. Holds lawful k rec t)
            (sym (execute_mint_with_retry_frame p retry cancelled payload.intent_id s).0) held)

    process_valid-Holds :
        (payload : MpesaCallbackRequest) (invalid : Option Text) (s : State p)
        → now.lookup ≤ℤ rec.expires_at
        → Holds lawful k rec s.records
        → Holds lawful k rec (process_valid p cfg retry cancelled now payload invalid s).1.records
    process_valid-Holds payload (some e) s h held = held
    process_valid-Holds payload none s h held =
        callback_after_lookup-Holds payload _ _
          (missed-ne lawful now.lookup (mpesa_key payload) k rec s.records h held)
          (get-Holds lawful now.lookup (mpesa_key payload) k rec s.records h held)

    process_decoded-Holds :
        (decoded : Option MpesaCallbackRequest) (s : State p)
        → now.lookup ≤ℤ rec.expires_at
        → Holds lawful k rec s.records
        → Holds lawful k rec (process_decoded p cfg retry cancelled now decoded s).1.records
    process_decoded-Holds none s h held = held
    process_decoded-Holds (some payload) s h held = process_valid-Holds payload _ s h held

    -- A callback, for whatever payment, that looks up before a record's end leaves the record.
    pub handle_mpesa_callback-Holds :
        (r : Request) (s : State p)
        → now.lookup ≤ℤ rec.expires_at
        → Holds lawful k rec s.records
        → Holds lawful k rec (handle_mpesa_callback p cfg retry cancelled now r s).1.records
    unfolding handle_mpesa_callback
    handle_mpesa_callback-Holds r s h held = elim (Bool-cases (text_eq r.method (codes "POST"))) [
      | inl post ↦ rw post (process_decoded-Holds _ s h held)
      | inr other ↦ rw other held
    ]

    -- A valid callback whose key is the record's is answered from the record, and mints nothing.
    pub handle_mpesa_callback_cached :
        (r : Request) (payload : MpesaCallbackRequest) (s : State p)
        → r.method ≡ codes "POST"
        → p.codec.decode_mpesa_callback (body_text r.body) ≡ some payload
        → validate_mpesa_request payload ≡ none
        → mpesa_key payload ≡ k
        → now.lookup ≤ℤ rec.expires_at
        → Holds lawful k rec s.records
        → handle_mpesa_callback p cfg retry cancelled now r s ≡ (
          json_response rec.status_code rec.response,
          count_metric
              (inc_callback (codes "cached"))
              (record s { records = (p.store.get now.lookup k s.records).1 }),
        )
    unfolding handle_mpesa_callback callback_after_lookup
    handle_mpesa_callback_cached r payload s post decoded valid same h held = rw (
      (text_eq_iff _ _).1 post,
      decoded,
      valid,
      same,
      existing-get lawful now.lookup k rec s.records h held,
      callback_after_lookup,
    )

  -- The state after the lookup of a payment's key.
  abbrev pub looked_up : Readings → MpesaCallbackRequest → State p → State p
  looked_up now payload s = record s {
    records = (p.store.get now.lookup (mpesa_key payload) s.records).1;
  }

  -- A valid callback for a payment with no live record goes on to the mint.
  pub handle_mpesa_callback_missed :
      (now : Readings) (r : Request) (payload : MpesaCallbackRequest) (s : State p)
      → text_eq r.method (codes "POST") ≡ true
      → p.codec.decode_mpesa_callback (body_text r.body) ≡ some payload
      → validate_mpesa_request payload ≡ none
      → live now.lookup (lawful.view s.records (mpesa_key payload)) ≡ none
      → handle_mpesa_callback p cfg retry cancelled now r s
        ≡ respond_callback p cfg retry cancelled now payload
            (execute_mint_with_retry p retry cancelled payload.intent_id
              (looked_up now payload s)).0
            (execute_mint_with_retry p retry cancelled payload.intent_id
              (looked_up now payload s)).1
  unfolding handle_mpesa_callback callback_after_lookup
  handle_mpesa_callback_missed now r payload s post decoded valid fresh = rw (
    post,
    decoded,
    valid,
    existing-live lawful now.lookup (mpesa_key payload) s.records,
    fresh,
    callback_after_lookup,
  )

  -- The mint for a payment with no live record succeeds: the response has the transaction's hash, the
  -- chain is what the retries left, and the response is kept under the payment's key until the end of
  -- the window.
  pub handle_mpesa_callback_processed :
      (now : Readings) (r : Request) (payload : MpesaCallbackRequest) (hash : Text) (s t : State p)
      → r.method ≡ codes "POST"
      → p.codec.decode_mpesa_callback (body_text r.body) ≡ some payload
      → validate_mpesa_request payload ≡ none
      → live now.lookup (lawful.view s.records (mpesa_key payload)) ≡ none
      → execute_mint_with_retry p retry cancelled payload.intent_id (looked_up now payload s)
        ≡ (ok hash, t)
      → ((handle_mpesa_callback p cfg retry cancelled now r s).0
          ≡ json_response 200 (callback_body p cfg retry cancelled payload hash))
        × ((handle_mpesa_callback p cfg retry cancelled now r s).1.chain ≡ t.chain)
        × Holds lawful
            (mpesa_key payload)
            (saved_record p cfg now 200 (callback_body p cfg retry cancelled payload hash))
            (handle_mpesa_callback p cfg retry cancelled now r s).1.records
  unfolding update_dlq_depth
  handle_mpesa_callback_processed now r payload hash s t post decoded valid fresh minted =
      rw
        (
          handle_mpesa_callback_missed now r payload s ((text_eq_iff _ _).1 post) decoded valid
              fresh,
          minted,
        )
        (refl, refl, save-Holds_self lawful (mpesa_key payload) _ t.records)
