-- ===== src/Server/Callback/Failed.antt =====
-- A callback whose mint fails.
use railway.Base.{ℕ, ◌^◌, ◌<◌, ◌≡◌, ◌≢◌, refl, Option, none, some, [], ◌∷◌, ◌++◌, ◌∙◌, ap, sym}
use railway.Base.Int.{ℤ, pos, ◌≤ℤ◌}
use railway.Base.Result.{Result, ok, err}
use railway.Text.{Text, codes, text_eq_iff}
use railway.Text.Print.{print_int}
use railway.FilePath.{resolve}
use railway.FilePath.Names.{NoSlash}
use railway.Http.{Request, http_error}
use railway.Idempotency.{live, IsLawful}
use railway.Config.{RetryConfig, ServiceConfig}
use railway.Server.Defs.{
  MpesaCallbackRequest, inc_callback, Parts, State, count_metric, Readings, body_text,
}
use railway.Server.Retry.{execute_mint_with_retry}
use railway.Server.Retry.Frame.{execute_mint_with_retry_frame}
use railway.Server.Dlq.{file_name, file_path, write_dlq}
use railway.Server.Dlq.Laws.{KeepsFiles, write_dlq_frame, write_dlq_lem}
use railway.Server.Dlq.Paths.{resolve-file_path}
use railway.Server.Callback.{validate_mpesa_request, mpesa_key, handle_mpesa_callback}
use railway.Server.Callback.Laws.{looked_up, handle_mpesa_callback_missed}

module _ (p : Parts) (lawful : IsLawful p.store) (cfg : ServiceConfig) (retry : RetryConfig)
    (cancelled : ℕ → ℤ → Option Text) where
  kept-records :
      (now : Readings) (payload : MpesaCallbackRequest) (e : Text) (s t : State p)
      → execute_mint_with_retry p retry cancelled payload.intent_id
          (looked_up p lawful cfg retry cancelled now payload s)
        ≡ (err e, t)
      → t.records ≡ (looked_up p lawful cfg retry cancelled now payload s).records
  kept-records now payload e s t failed =
      sym (ap (λ (q : Result Text × State p). q.1.records) failed)
      ∙ (execute_mint_with_retry_frame p retry cancelled payload.intent_id
          (looked_up p lawful cfg retry cancelled now payload s)).0

  -- The state in which the dead letter is written.
  abbrev counted : State p → State p
  counted t = count_metric (inc_callback (codes "failed")) t

  failed_answer :
      (now : Readings) (r : Request) (payload : MpesaCallbackRequest) (e : Text) (s t : State p)
      → r.method ≡ codes "POST"
      → p.codec.decode_mpesa_callback (body_text r.body) ≡ some payload
      → validate_mpesa_request payload ≡ none
      → live now.lookup (lawful.view s.records (mpesa_key payload)) ≡ none
      → execute_mint_with_retry p retry cancelled payload.intent_id
          (looked_up p lawful cfg retry cancelled now payload s)
        ≡ (err e, t)
      → handle_mpesa_callback p cfg retry cancelled now r s ≡ (
        http_error (codes "failed to execute mint: " ++ e) 500,
        write_dlq p cfg now payload e (counted t),
      )
  failed_answer now r payload e s t post decoded valid fresh failed =
      handle_mpesa_callback_missed p lawful cfg retry cancelled now r payload s
        ((text_eq_iff _ _).1 post) decoded valid fresh
      ∙ rw failed

  failed_records :
      (now : Readings) (payload : MpesaCallbackRequest) (e : Text) (s t : State p) (u : ℤ)
      (j : Text)
      → execute_mint_with_retry p retry cancelled payload.intent_id
          (looked_up p lawful cfg retry cancelled now payload s)
        ≡ (err e, t)
      → now.lookup ≤ℤ u
      → live u (lawful.view (write_dlq p cfg now payload e (counted t)).records j)
        ≡ live u (lawful.view s.records j)
  failed_records now payload e s t u j failed h =
      ap (λ q. live u (lawful.view q j))
        ((write_dlq_frame p cfg now payload e (counted t)).0
          ∙ kept-records now payload e s t failed)
      ∙ lawful.live-get now.lookup u (mpesa_key payload) j s.records h

  -- Over a lawful store, with a queue directory, at a time of the file's name below 10^19 nanoseconds and
  -- with a file system and an encoding that report no errors for the entry, a valid callback with no live
  -- record and no slash in its reference, whose mint fails, is answered with 500 and the error. The entry
  -- is then what is read at a path that leads to <nanoseconds>-<txRef>.json in the queue directory. No
  -- record is kept, so that the callback can be sent again: at every time from the lookup on, the store
  -- shows under every key what it showed before.
  pub handle_mpesa_callback_failed :
      (keeps : KeepsFiles p.files) (now : Readings) (r : Request) (payload : MpesaCallbackRequest)
      (e blob : Text) (n : ℕ) (s t : State p) (u : ℤ) (j : Text)
      → r.method ≡ codes "POST"
      → p.codec.decode_mpesa_callback (body_text r.body) ≡ some payload
      → validate_mpesa_request payload ≡ none
      → live now.lookup (lawful.view s.records (mpesa_key payload)) ≡ none
      → execute_mint_with_retry p retry cancelled payload.intent_id
          (looked_up p lawful cfg retry cancelled now payload s)
        ≡ (err e, t)
      → now.lookup ≤ℤ u
      → cfg.dlq_path ≢ []
      → now.file_name ≡ pos n
      → n < 10 ^ 19
      → NoSlash payload.tx_ref
      → p.codec.encode_dlq_entry now.stamp payload e ≡ ok blob
      → (p.files.mkdir_all cfg.dlq_path t.files).0 ≡ ok tt
      → (p.files.write_file
          (file_path p cfg now.file_name payload.tx_ref)
          blob
          (p.files.mkdir_all cfg.dlq_path t.files).1).0
        ≡ ok tt
      → ((handle_mpesa_callback p cfg retry cancelled now r s).0
          ≡ http_error (codes "failed to execute mint: " ++ e) 500)
        × ((path : Text) × (keeps.contents path
                (handle_mpesa_callback p cfg retry cancelled now r s).1.files
              ≡ some blob)
            × (resolve path ≡ (
              (resolve cfg.dlq_path).0,
              (print_int (pos n) ++ (codes "-" ++ (payload.tx_ref ++ codes ".json")))
                  ∷ (resolve cfg.dlq_path).1,
            )))
        × (live u (lawful.view (handle_mpesa_callback p cfg retry cancelled now r s).1.records j)
            ≡ live u (lawful.view s.records j))
  unfolding file_name
  handle_mpesa_callback_failed keeps now r payload e blob n s t u j post decoded valid fresh failed
        h queue time below free encoded made written =
      let answer = failed_answer now r payload e s t post decoded valid fresh failed in
      rw answer (
        refl,
        (
          file_path p cfg now.file_name payload.tx_ref,
          write_dlq_lem p cfg keeps now payload e blob (counted t) queue encoded made written,
          ap (λ z. resolve (file_path p cfg z payload.tx_ref)) time
              ∙ resolve-file_path p cfg n payload.tx_ref queue below free,
        ),
        failed_records now payload e s t u j failed h,
      )
