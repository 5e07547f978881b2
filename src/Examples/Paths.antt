-- ===== src/Examples/Paths.antt =====
-- Where dead letters lie, for the references of some payments.
use railway.Base.{ℕ, ◌≡◌, ◌≢◌, refl, ◌++◌, [], ◌∷◌, arith}
use railway.Base.Int.{pos}
use railway.Text.{Text, codes}
use railway.FilePath.{clean, join, dir, resolve}
use railway.FilePath.Names.{NoSlash}
use railway.Server.Dlq.{file_path}
use railway.Server.Dlq.Paths.{file_path_inj, file_path_escapes}
use railway.Examples.Setting.{code, parts, service}

clean_doubled : clean (codes "a//b/./../c/") ≡ codes "a/c"
unfolding code
clean_doubled = refl

join_upwards : join (codes "../dlq") (codes "1-/../../x.json") ≡ codes "../x.json"
unfolding code
join_upwards = refl

dir_store : dir (codes "/tmp/fiatrails-idem.json") ≡ codes "/tmp"
unfolding code
dir_store = refl

clean_above_root : clean (codes "/../a/..") ≡ codes "/"
unfolding code
clean_above_root = refl

queue-ne-nil : service.dlq_path ≢ []
unfolding codes
queue-ne-nil h = cc

abbrev reference : Text
reference = codes "tx-1"

reference-NoSlash : NoSlash reference
unfolding codes
reference-NoSlash = (refl, (refl, (refl, (refl, tt))))

target-NoSlash : NoSlash (codes "x")
unfolding codes
target-NoSlash = (refl, tt)

abbrev time : ℕ
time = 100000000000

file_path_inj_example : (time ≡ time) × (reference ≡ reference)
file_path_inj_example =
    file_path_inj parts service time time reference reference queue-ne-nil (omega arith)
      (omega arith) reference-NoSlash reference-NoSlash refl

file_path_escapes_example :
    resolve (file_path parts service (pos time) (codes "/../../" ++ codes "x"))
    ≡ ((resolve service.dlq_path).0, (codes "x" ++ codes ".json") ∷ [])
unfolding code
file_path_escapes_example =
    file_path_escapes parts service time (codes "x") (codes "dlq") [] queue-ne-nil (omega arith)
      target-NoSlash refl refl
