-- ===== src/Examples/Stores.antt =====
-- The stores over a disk and a database that are lists.
use railway.Base.{
  ◌≡◌, refl, ap, ◌∙◌, List, [], ◌∷◌, Option, none, some, arith, if◌then◌else◌, Bool-cases, inl, inr,
}
use railway.Base.Int.{ℤ, pos}
use railway.Base.Result.{ok}
use railway.Text.{Text, codes, text_eq, text_eq_iff}
use railway.Idempotency.{Record, IsLawful, live}
use railway.Idempotency.Map.{lookup, insert, delete, lookup-insert, lookup-delete}
use railway.Idempotency.File
use railway.Idempotency.File.{Os, contents, not_exist, FileStore, file_store, file_store-IsLawful}
use railway.Idempotency.File.Durable.{Opens, save-Opens}
use railway.Examples.Disk.{one_file, one_file-IsFaithful}
use railway.Idempotency.Postgres
use railway.Idempotency.Postgres.{
  OnConflict, do_nothing, do_update, Statement, create_table, insert_row, delete_rows, Pool,
  PostgresStore,
}
use railway.Idempotency.Postgres.Laws.{IsUp, IsRow, row_of, stored, get-save, get-delete_key-save}
use railway.Text.Utf8.{is_utf8}

-- The database is the table itself.
abbrev insert_found : Text → Record → List (Text × Record) → Option Record → List (Text × Record)
insert_found k r db none = insert k (stored r) db
insert_found k r db (some old) = db

abbrev insert_on : OnConflict → Text → Record → List (Text × Record) → List (Text × Record)
insert_on do_update k r db = insert k (stored r) db
insert_on do_nothing k r db = insert_found k r db (lookup k db)

abbrev put_back : Text → Option Record → List (Text × Record) → List (Text × Record)
put_back k none db = delete k db
put_back k (some old) db = insert k old db

abbrev run_statement : Statement → List (Text × Record) → List (Text × Record)
run_statement create_table db = db
run_statement (insert_row k r conflict) db = insert_on conflict k r db
run_statement (delete_rows k none) db = delete k db
run_statement (delete_rows k (some t)) db = put_back k (live t (lookup k db)) db

abbrev pub table : Pool
table = record {
  Db = List (Text × Record);
  new = λ dsn. ok [];
  ping = λ db. ok tt;
  close = λ db. db;
  query_row = λ k db. row_of (lookup k db);
  exec = λ statement db. (ok tt, run_statement statement db);
}

put_back-lookup :
    (k j : Text) (found : Option Record) (db : List (Text × Record))
    → lookup j (put_back k found db) ≡ (if text_eq k j then found else lookup j db)
put_back-lookup k j none db = lookup-delete k j db
put_back-lookup k j (some old) db = lookup-insert k j old db

expired_rows :
    (t : ℤ) (k j : Text) (db : List (Text × Record))
    → lookup j (put_back k (live t (lookup k db)) db)
      ≡ (if text_eq k j then live t (lookup j db) else lookup j db)
expired_rows t k j db = elim (Bool-cases (text_eq k j)) [
  | inl same ↦
      rw (put_back-lookup k j, same) (ap (λ i. live t (lookup i db)) ((text_eq_iff k j).0 same))
  | inr other ↦ rw (put_back-lookup k j, other) refl
]

abbrev up : IsUp table
up = record {
  rows = λ db k. lookup k db;
  query_row-rows = λ k db column. refl;
  rows-insert_update = λ k j r db fits. lookup-insert k j (stored r) db;
  rows-insert_new = λ k j r db fits free.
      ap (λ o. lookup j (insert_found k r db o)) free ∙ lookup-insert k j (stored r) db;
  rows-insert_nothing = λ k j r old db fits found. ap (λ o. lookup j (insert_found k r db o)) found;
  rows-delete = λ k j db column. lookup-delete k j db;
  rows-delete_expired = λ t k j db column. expired_rows t k j db;
}

abbrev stale : Record
stale = record { status_code = 201; response = codes "a"; created_at = pos 0; expires_at = pos 5 }

abbrev renewed : Record
renewed = record {
  status_code = 201;
  response = codes "b";
  created_at = pos 6;
  expires_at = pos 90000;
}

abbrev old_table : PostgresStore table
old_table = record { db = (codes "k", stale) ∷ []; pending = [] }

old_table_found : lookup (codes "k") old_table.db ≡ some stale
unfolding lookup codes text_eq
old_table_found = refl

k-IsRow : IsRow (codes "k") renewed
unfolding codes is_utf8
k-IsRow = ((refl, (refl, tt)), omega arith, (omega arith, omega arith), (omega arith, omega arith))

get-save_example :
    (Postgres.get table (pos 6) (codes "k") (Postgres.save table (codes "k") renewed old_table).1).0
    ≡ (if text_eq (codes "k") (codes "k")
        then ok (live (pos 6) (some (stored renewed)))
        else (Postgres.get table (pos 6) (codes "k") old_table).0)
get-save_example =
    get-save table up (pos 6) (codes "k") (codes "k") renewed old_table k-IsRow k-IsRow.0

get-delete_key-save_example :
    ((Postgres.get table (pos 8) (codes "k") (
        Postgres.delete_key table
          (Postgres.save table
            (codes "k")
            renewed
            (Postgres.get table (pos 6) (codes "k") old_table).1).1)).0
      ≡ ok none)
    × ((Postgres.get table
          (pos 8)
          (codes "k")
          (Postgres.save table
            (codes "k")
            renewed
            (Postgres.delete_key table (Postgres.get table (pos 6) (codes "k") old_table).1)).1).0
        ≡ ok (live (pos 8) (some (stored renewed))))
get-delete_key-save_example =
    get-delete_key-save table up (pos 6) (pos 8) (codes "k") stale renewed old_table k-IsRow
      old_table_found refl refl

file_store-IsLawful_example : IsLawful (file_store one_file)
file_store-IsLawful_example = file_store-IsLawful one_file

abbrev empty_file_store : FileStore one_file
empty_file_store = record { path = codes "/tmp/idem.json"; entries = []; disk = none }

abbrev saved_file_store : FileStore one_file
saved_file_store = (File.save one_file (b'k' ∷ []) renewed empty_file_store).1

save-Opens_example :
    Opens one_file one_file-IsFaithful
      (codes "/tmp/idem.json")
      saved_file_store.disk
      (insert (b'k' ∷ []) renewed [])
unfolding File.save File.persist insert lookup is_utf8
save-Opens_example =
    save-Opens one_file one_file-IsFaithful empty_file_store saved_file_store (b'k' ∷ []) renewed
      refl (λ k rec found. cc) refl
