-- ===== src/Server/Serve/Restart.antt =====
-- Repeated requests across a restart of a program that keeps its records in a file.
use railway.Base.{arith, ◌≡◌, true, false, List, [], ◌∷◌, none, ◌∙◌, ap, sym}
use railway.Base.Int.{ℤ, ◌≤ℤ◌, ◌+ℤ◌}
use railway.Base.Result.{ok}
use railway.Text.{Text, codes, text_eq}
use railway.Text.Utf8.{is_utf8}
use railway.Http.{Request, Response}
use railway.Config.{AppConfig, ServiceConfig}
use railway.Idempotency.{Record, IsDated, live}
use railway.Idempotency.Map.{lookup}
use railway.Idempotency.File.{
  Os, FileStore, file_store, file_store-IsLawful, new_file_store, get-live,
}
use railway.Idempotency.File.Durable.{IsFaithful}
use railway.Idempotency.File.Synced.{
  AllEncodable, IsReliable, IsSynced, new_file_store-IsSynced, get-IsSynced, save-IsSynced,
}
use railway.Escrow.{Client}
use railway.Hmac.{verify}
use railway.Server.Defs.{Parts, State, FileSystem, Codec, Readings}
use railway.Server.Records.{Holds, Holds-of_get, get-of_Holds}
use railway.Server.Kept.{IsKept}
use railway.Server.Mint.{mint_key, saved_record, mint_body}
use railway.Server.Serve.{hmac_verifier, Arrival, with_request_id, Outside, serve, serve_all}
use railway.Server.Serve.Frame.{AllBefore, serve_all-Holds}
use railway.Server.Serve.Kept.{AllKept, serve_keeps, serve_all_keeps}
use railway.Server.Serve.Routes.{
  mint_path, callback_path, mint-ne-callback, mint_key-with_request_id, serve_mint_cached,
  serve-IsCreated,
}

abbrev pub IsUtf8 : Text → Type 0
IsUtf8 key = is_utf8 key ≡ true

-- The times at which a request would save a record are dated.
abbrev pub IsTimely : ServiceConfig → Readings → Type 0
IsTimely cfg now = IsDated now.created × IsDated (now.expires +ℤ cfg.idempotency_window)

-- A request that is no callback, which could write a dead letter, and whose key is valid UTF-8.
abbrev pub IsPlain : Request → Type 0
IsPlain r = (text_eq r.path callback_path ≡ false) × IsUtf8 (mint_key r)

abbrev pub AllTimely : ServiceConfig → List (Arrival × Request) → Type 0
AllTimely cfg [] = Unit
AllTimely cfg ((a, r) ∷ rest) = IsTimely cfg a.readings × IsPlain r × AllTimely cfg rest

module _ (os : Os) (client : Client) (files : FileSystem) (codec : Codec) where
  -- The parts of a server with a file store.
  abbrev pub on_file : Parts
  on_file = record { store = file_store os; client = client; files = files; codec = codec }

  Holds-entries :
      (k : Text) (rec : Record) (f g : FileStore os)
      → lookup k g.entries ≡ lookup k f.entries
      → Holds {S = file_store os} (file_store-IsLawful os) k rec f
      → Holds {S = file_store os} (file_store-IsLawful os) k rec g
  Holds-entries k rec f g same held =
      let t = rec.expires_at in
      Holds-of_get {S = file_store os} (file_store-IsLawful os) t k rec g (
        get-live os t k g
        ∙ ap (λ o. ok (live t o)) same
        ∙ sym (get-live os t k f)
        ∙ get-of_Holds {S = file_store os} (file_store-IsLawful os) t k rec f (omega arith) held)

  live-entries :
      (t : ℤ) (k : Text) (f : FileStore os)
      → live t (lookup k f.entries) ≡ none
      → live t ((file_store-IsLawful os).view f k) ≡ none
  live-entries t k f fresh = cc (get-live os t k f, (file_store-IsLawful os).get-live t k f)

  module _ (faithful : IsFaithful os) (o : Outside) (cfg : AppConfig)
      (reliable : IsReliable os cfg.service.idempotency_store_path) where
    abbrev Synced : FileStore os → Type 0
    Synced = IsSynced os faithful cfg.service.idempotency_store_path

    kept :
        (now : Readings) → IsTimely cfg.service now → IsKept on_file cfg.service IsUtf8 Synced now
    kept now (created, expires) = record {
      get_keeps = get-IsSynced os faithful _ reliable now.lookup;
      save_keeps = λ key status b s valid.
          save-IsSynced os faithful _ reliable key (saved_record on_file cfg.service now status b) s
            valid created expires;
    }

    all_kept :
        (requests : List (Arrival × Request))
        → AllTimely cfg.service requests
        → AllKept on_file o cfg IsUtf8 Synced requests
    all_kept [] timely = tt
    all_kept ((a, r) ∷ rest) (now, plain, timely) =
        (kept a.readings now, plain, all_kept rest timely)

    mint-IsPlain : (r : Request) → r.path ≡ mint_path → IsUtf8 (mint_key r) → IsPlain r
    mint-IsPlain r path valid = (cc (path, mint-ne-callback), valid)

    -- A store opened on the disk of a store that holds a record holds it.
    reopened-Holds :
        (k : Text) (rec : Record) (f : FileStore os)
        → Synced f
        → Holds {S = file_store os} (file_store-IsLawful os) k rec f
        → (g : FileStore os) × (new_file_store os cfg.service.idempotency_store_path f.disk ≡ ok g)
          × Holds {S = file_store os} (file_store-IsLawful os) k rec g
    reopened-Holds k rec f (at, dated, (g, opened, same)) held =
        (g, opened, Holds-entries k rec f g (same k) held)

    -- On a file system that reads back what it writes and reports no errors, a program opens its
    -- file, answers requests that are no callbacks, answers a mint request for a key with no live record
    -- with 201, answers more requests that are no callbacks, and stops. A program that is then started
    -- opens the file; after any requests, within the idempotency window, a signed request with the key
    -- gets the first response, and the chain is not called for it. The keys of the first program are
    -- valid UTF-8 and the times at which it saves are in the years 1 to 9998, and so are those of the
    -- file it opened.
    pub restart_mint_once :
        (a b : Arrival) (r q q' : Request) (before between after : List (Arrival × Request))
        (disk : os.Disk) (s t : State on_file)
        → new_file_store os cfg.service.idempotency_store_path disk ≡ ok s.records
        → AllEncodable s.records.entries
        → AllTimely cfg.service before
        → IsTimely cfg.service a.readings
        → IsUtf8 (mint_key r)
        → AllTimely cfg.service between
        → r.path ≡ mint_path
        → live a.readings.lookup
            (lookup (mint_key r) (serve_all on_file o cfg before s).records.entries)
          ≡ none
        → (serve on_file o cfg a r (serve_all on_file o cfg before s)).0.status ≡ 201
        → AllBefore (a.readings.expires +ℤ cfg.service.idempotency_window) between
        → AllBefore (a.readings.expires +ℤ cfg.service.idempotency_window) after
        → q.path ≡ mint_path
        → q.method ≡ codes "POST"
        → mint_key q ≡ mint_key r
        → verify o.mac (hmac_verifier cfg) b.clock (with_request_id b q) ≡ ok q'
        → b.readings.lookup ≤ℤ a.readings.expires +ℤ cfg.service.idempotency_window
        → (g : FileStore os) × (new_file_store os cfg.service.idempotency_store_path
              (serve_all on_file o cfg between
                (serve on_file o cfg a r (serve_all on_file o cfg before s)).1).records.disk
            ≡ ok g)
          × ((serve on_file o cfg b q (serve_all on_file o cfg after (record t { records = g }))).0
              ≡ (serve on_file o cfg a r (serve_all on_file o cfg before s)).0)
          × ((serve on_file o cfg b q
                (serve_all on_file o cfg after (record t { records = g }))).1.chain
              ≡ (serve_all on_file o cfg after (record t { records = g })).chain)
    restart_mint_once a b r q q' before between after disk s t opened dated timely now spelled
          timely' path fresh e within within' qpath post same signed h =
        let lawful = file_store-IsLawful os in
        let first = serve_all on_file o cfg before s in
        let out = serve on_file o cfg a r first in
        let last = serve_all on_file o cfg between out.1 in
        let (full, made) =
          serve-IsCreated on_file o cfg lawful a r first path
            (live-entries a.readings.lookup (mint_key r) first.records fresh) e in
        let (payload, result, decoded, valid, submitted, response, held) = made in
        let key = mint_key (with_request_id a r) in
        let rec =
          saved_record on_file cfg.service a.readings 201 (mint_body on_file cfg.service result) in
        let synced =
          serve_all_keeps on_file o cfg IsUtf8 Synced between out.1 (all_kept between timely') (
            serve_keeps on_file o cfg IsUtf8 Synced a r first (kept a.readings now)
              (mint-IsPlain r path spelled)
              (serve_all_keeps on_file o cfg IsUtf8 Synced before s (all_kept before timely)
                (new_file_store-IsSynced os faithful _ disk s.records opened dated))) in
        let (g, reopened, there) =
          reopened-Holds key rec last.records synced
            (serve_all-Holds on_file o cfg lawful key rec between out.1 within held) in
        let restarted = record t { records = g } in
        let kept_on = serve_all-Holds on_file o cfg lawful key rec after restarted within' there in
        let again =
          serve_mint_cached on_file o cfg lawful b q q' key rec
            (serve_all on_file o cfg after restarted) qpath post
            (same ∙ sym (mint_key-with_request_id a r))
            (λ h. full (sym (mint_key-with_request_id a r) ∙ h)) signed h kept_on in
        (
          g,
          reopened,
          ap (λ (out : Response × State on_file). out.0) again ∙ sym response,
          ap (λ (out : Response × State on_file). out.1.chain) again,
        )
