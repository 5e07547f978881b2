-- ===== src/Idempotency/Postgres.antt =====
-- api/internal/idempotency/postgres_store.go. The pool of github.com/jackc/pgx is an interface that
-- runs statements; a deletion that `go p.deleteKey` starts is pending until a step of the schedule runs it.
pub mod Laws
use railway.Base.{List, [], ◌∷◌, ◌++◌, Option, none, some, if◌then◌else◌}
use railway.Base.Int.{ℤ}
use railway.Base.Result.{Result, ok, err, ◌>>=◌}
use railway.Text.{Text, codes, is_empty}
use railway.Time.{after}
use railway.Idempotency.Defs.{Record, Store}

-- What row.Scan reports; `no_rows` is an error that errors.Is finds to be pgx.ErrNoRows.
pub data Row : Type 0 where
  row : Record → Row
  no_rows : Row
  failed : Text → Row

-- What INSERT does at a key that is there: ON CONFLICT (key) DO NOTHING, or DO UPDATE of the other columns.
pub data OnConflict : Type 0 where
  do_nothing do_update : OnConflict

-- The SQL that the pool runs, on the table idempotency_records: CREATE TABLE IF NOT EXISTS; INSERT of a row with its key; and
-- DELETE of the rows with a key, and with a time if there is one only of those that expired before it.
pub data Statement : Type 0 where
  create_table : Statement
  insert_row : Text → Record → OnConflict → Statement
  delete_rows : Text → Option ℤ → Statement

-- The calls of pgxpool that the store makes. `query_row` is SELECT of the columns of Record from the
-- row with a key.
pub record Pool : Type 1 where
  pub Db : Type 0
  pub new : Text → Result Db
  pub ping : Db → Result (Unit {0})
  pub close : Db → Db
  pub query_row : Text → Db → Row
  pub exec : Statement → Db → Result (Unit {0}) × Db

-- NewPostgresStore gives a store, or an error and the database that it closed, if it had one.
pub data Opened (D S : Type 0) : Type 0 where
  opened : S → Opened D S
  refused : Text → Option D → Opened D S

module _ (pool : Pool) where
  open pool use {Db, new, ping, close, query_row, exec}

  -- The database, and the keys whose deletion has been started and has not run, the oldest first.
  pub record PostgresStore : Type 0 where
    pub db : Db
    pub pending : List Text

  abbrev created : Result (Unit {0}) × Db → Opened Db PostgresStore
  created (err e, db) = refused e (some (close db))
  created (ok _, db) = opened (record { db = db; pending = [] })

  abbrev pinged : Result (Unit {0}) → Db → Opened Db PostgresStore
  pinged (err e) db = refused e (some (close db))
  pinged (ok _) db = created (exec create_table db)

  abbrev connected : Result Db → Opened Db PostgresStore
  connected (err e) = refused e none
  connected (ok db) = pinged (ping db) db

  unfoldable pub new_postgres_store : Text → Opened Db PostgresStore
  new_postgres_store dsn =
      if is_empty dsn then refused (codes "postgres dsn is empty") none else connected (new dsn)

  unfoldable pub ping_store : PostgresStore → Result (Unit {0})
  ping_store p = ping p.db

  -- Close; the pool of a store that was opened is not nil.
  unfoldable pub close_store : PostgresStore → PostgresStore
  close_store p = record p { db = close p.db }

  abbrev answer : ℤ → Text → Row → PostgresStore → Result (Option Record) × PostgresStore
  answer now key no_rows p = (ok none, p)
  answer now key (failed e) p = (err e, p)
  answer now key (row rec) p =
      if after now rec.expires_at
      then (ok none, record p { pending = p.pending ++ key ∷ [] })
      else (ok (some rec), p)

  unfoldable pub get : ℤ → Text → PostgresStore → Result (Option Record) × PostgresStore
  get now key p = answer now key (query_row key p.db) p

  unfoldable pub save : Text → Record → PostgresStore → Result (Unit {0}) × PostgresStore
  save key rec p =
      let (result, db) = exec (insert_row key rec do_update) p.db in (result, record p { db = db })

  -- deleteKey, run by its goroutine for the oldest pending key.
  unfoldable pub delete_key : PostgresStore → PostgresStore
  delete_key p = elim p.pending [
    | [] ↦ p
    | key ∷ rest ↦ record p { db = (exec (delete_rows key none) p.db).1; pending = rest }
  ]

  abbrev pub postgres_store : Store
  postgres_store = record { State = PostgresStore; get = get; save = save }
