-- ===== src/Examples/Restart.antt =====
-- A program that is started again on its disk.
use railway.Base.{◌≡◌, refl, [], ◌∷◌, List, none, arith}
use railway.Base.Int.{pos}
use railway.Base.Result.{ok}
use railway.Text.{Text, codes}
use railway.Text.Utf8.{is_utf8}
use railway.Http.{Request}
use railway.Idempotency.{live}
use railway.Idempotency.Map.{lookup}
use railway.Idempotency.File
use railway.Idempotency.File.{FileStore, new_file_store}
use railway.Server.Defs.{Parts, State}
use railway.Server.Serve.{Arrival, with_request_id, serve, serve_all}
use railway.Server.Serve.Restart.{on_file, restart_mint_once}
use railway.Examples.Setting.{
  code, counting_client, listed_files, copying_codec, outside, config, at, mint_request,
  callback_request,
}
use railway.Examples.Disk.{one_file, one_file-IsFaithful, one_file-IsReliable}

abbrev parts : Parts
parts = on_file one_file counting_client listed_files copying_codec

abbrev path : Text
path = config.service.idempotency_store_path

-- The disk is empty.
abbrev start : State parts
start = record {
  records = record { path = path; entries = []; disk = none };
  chain = 0;
  files = [];
  metrics = [];
  slept = [];
}

abbrev first : Request
first = mint_request (codes "k") (codes "1")

abbrev again : Request
again = mint_request (codes "k") (codes "2")

abbrev earlier : List (Arrival × Request)
earlier = (at 90, mint_request (codes "j") (codes "7")) ∷ []

abbrev between : List (Arrival × Request)
between = (at 101, mint_request (codes "l") (codes "9")) ∷ []

abbrev later : List (Arrival × Request)
later = (at 110, callback_request (codes "9")) ∷ []

abbrev before_it : State parts
before_it = serve_all parts outside config earlier start

abbrev last : State parts
last =
    serve_all parts outside config between (serve parts outside config (at 100) first before_it).1

opened : new_file_store one_file path none ≡ ok start.records
unfolding new_file_store File.load
opened = refl

created : (serve parts outside config (at 100) first before_it).0.status ≡ 201
unfolding code File.get File.save File.persist
created = refl

fresh : live (pos 100000000000) (lookup (codes "k") before_it.records.entries) ≡ none
unfolding code File.get File.save File.persist
fresh = refl

restart_mint_once_example :
    (g : FileStore one_file) × (new_file_store one_file path last.records.disk ≡ ok g)
    × ((serve parts outside config
          (at 120)
          again
          (serve_all parts outside config later (record start { records = g }))).0
        ≡ (serve parts outside config (at 100) first before_it).0)
    × ((serve parts outside config
          (at 120)
          again
          (serve_all parts outside config later (record start { records = g }))).1.chain
        ≡ (serve_all parts outside config later (record start { records = g })).chain)
unfolding code is_utf8
restart_mint_once_example =
    restart_mint_once one_file counting_client listed_files copying_codec one_file-IsFaithful
      outside config one_file-IsReliable (at 100) (at 120) first again
      (with_request_id (at 120) again) earlier between later none start start opened
      (λ k rec found. cc) ((omega arith, omega arith), (refl, refl), tt) (omega arith, omega arith)
      refl ((omega arith, omega arith), (refl, refl), tt) refl fresh created (omega arith, tt)
      (omega arith, tt) refl refl refl refl (omega arith)
