-- ===== src/Examples/Letters.antt =====
-- A callback whose mint fails, over a file system that is a list of files.
use railway.Base.{◌≡◌, refl, Option, none, some, List, [], ◌∷◌, ◌++◌, arith, if◌then◌else◌}
use railway.Base.Int.{pos}
use railway.Base.Result.{ok}
use railway.Text.{Text, codes, text_eq, text_eq_refl}
use railway.Text.Print.{print_int}
use railway.FilePath.{resolve}
use railway.Http.{Request, http_error}
use railway.Idempotency.{live, IsLawful}
use railway.Idempotency.Memory.{memory_store, memory_store-IsLawful}
use railway.Config.{RetryConfig}
use railway.Server.Defs.{FileSystem, Parts, State}
use railway.Server.Retry.{execute_mint_with_retry}
use railway.Server.Dlq.Laws.{KeepsFiles}
use railway.Server.Callback.{handle_mpesa_callback, mpesa_key}
use railway.Server.Callback.Laws.{looked_up}
use railway.Server.Callback.Failed.{handle_mpesa_callback_failed}
use railway.Examples.Requests.{start_fresh}
use railway.Examples.Setting as Setting
use railway.Examples.Setting.{code, service, retry, at, readings_at, callback_request, payment}

abbrev contents_in : Text → List (Text × Text) → Option Text
contents_in path [] = none
contents_in path ((other, blob) ∷ files) =
    let rest = contents_in path files in if text_eq path other then some blob else rest

abbrev names : List (Text × Text) → List Text
names [] = []
names ((path, blob) ∷ files) = path ∷ names files

abbrev listed : FileSystem
listed = record {
  Files = List (Text × Text);
  mkdir_all = λ path files. (ok tt, files);
  write_file = λ path blob files. (ok tt, (path, blob) ∷ files);
  read_dir = λ path files. ok (names files);
}

abbrev keeps : KeepsFiles listed
keeps = record {
  contents = contents_in;
  contents-write_file = λ path blob files h. rw text_eq_refl refl;
}

abbrev parts : Parts
parts = record Setting.parts { files = listed }

abbrev start : State parts
start = record { records = Setting.start.records; chain = 0; files = []; metrics = []; slept = [] }

abbrev once : RetryConfig
once = record retry { max_attempts = pos 1 }

abbrev lawful : IsLawful memory_store
lawful = memory_store-IsLawful

abbrev paid : Request
paid = callback_request (codes "9")

-- A state in which the one attempt at the payment has failed.
abbrev after_failure : State parts
after_failure =
    (execute_mint_with_retry parts once (at 100).cancelled (codes "9") (
      looked_up parts lawful service once (at 100).cancelled (at 100).readings (payment (codes "9"))
        start)).1

abbrev answered : State parts
answered =
    (handle_mpesa_callback parts service once (at 100).cancelled (readings_at 100) paid start).1

handle_mpesa_callback_failed_example :
    ((handle_mpesa_callback parts service once (at 100).cancelled (readings_at 100) paid start).0
      ≡ http_error (codes "failed to execute mint: " ++ codes "network error") 500)
    × ((path : Text) × (contents_in path answered.files ≡ some (codes "network error"))
        × (resolve path ≡ (
          (resolve (codes "dlq")).0,
          (print_int (pos 100000000000) ++ (codes "-" ++ (codes "9" ++ codes ".json")))
              ∷ (resolve (codes "dlq")).1,
        )))
    × (live (pos 200000000000) (lawful.view answered.records (codes "k"))
        ≡ live (pos 200000000000) (lawful.view start.records (codes "k")))
unfolding code
handle_mpesa_callback_failed_example =
    handle_mpesa_callback_failed parts lawful service once (at 100).cancelled keeps
      (readings_at 100) paid (payment (codes "9")) (codes "network error") (codes "network error")
      100000000000 start after_failure (pos 200000000000) (codes "k") refl refl refl
      (start_fresh (pos 100000000000) (mpesa_key (payment (codes "9")))) refl (omega arith)
      (λ h. cc) refl (omega arith) (refl, tt) refl refl refl
