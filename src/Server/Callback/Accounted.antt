-- ===== src/Server/Callback/Accounted.antt =====
-- The account of a callback.
use railway.Base.{ℕ, refl, Option, none, some, inl, inr, Bool-cases}
use railway.Base.Int.{ℤ}
use railway.Base.Result.{Result, ok, err}
use railway.Text.{Text, codes, text_eq}
use railway.Http.{Request}
use railway.Idempotency.{Record}
use railway.Config.{ServiceConfig, RetryConfig}
use railway.Server.Defs.{MpesaCallbackRequest, inc_callback, Parts, State, count_metric, Readings}
use railway.Server.Retry.{execute_mint_with_retry}
use railway.Server.Mint.{saved_record}
use railway.Server.Callback.{
  mpesa_key, validate_mpesa_request, respond_callback, callback_body, callback_after_lookup,
  process_valid, process_decoded, handle_mpesa_callback,
}
use railway.Server.Retry.Accounted.{execute_mint_with_retry-IsAccounted}
use railway.Server.Dlq.Accounted.{write_dlq-IsAccounted, update_dlq_depth-IsAccounted}
use railway.Server.Accounts.{IsAccounted, unchanged, followed, noted}

module _ (p : Parts) (cfg : ServiceConfig) (retry : RetryConfig)
    (cancelled : ℕ → ℤ → Option Text) where
  respond_callback-IsAccounted :
      (now : Readings) (payload : MpesaCallbackRequest) (result : Result Text) (s : State p)
      → IsAccounted p s (respond_callback p cfg retry cancelled now payload result s).1
  respond_callback-IsAccounted now payload (err e) s =
      followed p s (count_metric (inc_callback (codes "failed")) s) _
        (noted p (inc_callback (codes "failed")) s refl refl)
        (write_dlq-IsAccounted p cfg now payload e (count_metric (inc_callback (codes "failed")) s))
  respond_callback-IsAccounted now payload (ok hash) s =
      let saved = record s {
        records =
            (p.store.save (mpesa_key payload)
              (saved_record p cfg now 200 (callback_body p cfg retry cancelled payload hash))
              s.records).1;
      } in
      let noted_state = count_metric (inc_callback (codes "processed")) saved in
      followed p s noted_state _
        (followed p s saved noted_state (unchanged p s saved refl refl)
          (noted p (inc_callback (codes "processed")) saved refl refl))
        (update_dlq_depth-IsAccounted p cfg noted_state)

  callback_after_lookup-IsAccounted :
      (now : Readings) (payload : MpesaCallbackRequest) (found : Option Record) (s : State p)
      → IsAccounted p s (callback_after_lookup p cfg retry cancelled now payload found s).1
  unfolding callback_after_lookup
  callback_after_lookup-IsAccounted now payload (some rec) s =
      noted p (inc_callback (codes "cached")) s refl refl
  callback_after_lookup-IsAccounted now payload none s =
      followed p s (execute_mint_with_retry p retry cancelled payload.intent_id s).1 _
        (execute_mint_with_retry-IsAccounted p retry cancelled payload.intent_id s)
        (respond_callback-IsAccounted now payload _ _)

  process_valid-IsAccounted :
      (now : Readings) (payload : MpesaCallbackRequest) (invalid : Option Text) (s : State p)
      → IsAccounted p s (process_valid p cfg retry cancelled now payload invalid s).1
  process_valid-IsAccounted now payload (some e) s = unchanged p s s refl refl
  process_valid-IsAccounted now payload none s =
      followed p s (record s { records = (p.store.get now.lookup (mpesa_key payload) s.records).1 })
        _ (unchanged p _ _ refl refl) (callback_after_lookup-IsAccounted now payload _ _)

  process_decoded-IsAccounted :
      (now : Readings) (decoded : Option MpesaCallbackRequest) (s : State p)
      → IsAccounted p s (process_decoded p cfg retry cancelled now decoded s).1
  process_decoded-IsAccounted now none s = unchanged p s s refl refl
  process_decoded-IsAccounted now (some payload) s =
      process_valid-IsAccounted now payload (validate_mpesa_request payload) s

  pub handle_mpesa_callback-IsAccounted :
      (now : Readings) (r : Request) (s : State p)
      → IsAccounted p s (handle_mpesa_callback p cfg retry cancelled now r s).1
  unfolding handle_mpesa_callback
  handle_mpesa_callback-IsAccounted now r s = elim (Bool-cases (text_eq r.method (codes "POST"))) [
    | inr other ↦ rw other (unchanged p s s refl refl)
    | inl post ↦ rw post (process_decoded-IsAccounted now _ s)
  ]
