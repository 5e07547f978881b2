-- ===== src/Idempotency/Postgres/Laws.antt =====
-- The Postgres store over a database that answers: what a save leaves to be read, and the order of a
-- save and a late deletion.
use railway.Base.{
  ◌+◌, ◌*◌, ◌/◌, ◌^◌, ◌<◌, ◌≡◌, refl, ap, ◌∙◌, ◌∷◌, [], Option, none, some, arith, true,
  if◌then◌else◌,
}
use railway.Base.Int.{ℤ, pos, negsuc}
use railway.Base.Result.{ok}
use railway.Text.{Text, text_eq, text_eq_refl}
use railway.Text.Lacks.{Lacks}
use railway.Text.Utf8.{is_utf8}
use railway.Time.{after}
use railway.Idempotency.Defs.{Record, IsDated, live}
use railway.Idempotency.Postgres.{
  do_nothing, do_update, insert_row, delete_rows, Pool, Row, row, no_rows, PostgresStore, get, save,
  delete_key,
}

abbrev pub row_of : Option Record → Row
row_of none = no_rows
row_of (some rec) = row rec

-- A time to the microsecond, which a column of type TIMESTAMPTZ keeps.
unfoldable pub to_micros : ℤ → ℤ
to_micros (pos n) = pos (n / 1000 * 1000)
to_micros (negsuc n) = negsuc (n / 1000 * 1000 + 999)

abbrev pub stored : Record → Record
stored rec = record rec {
  created_at = to_micros rec.created_at;
  expires_at = to_micros rec.expires_at;
}

-- A column of type TEXT takes valid UTF-8 without a zero byte.
abbrev pub IsColumn : Text → Type 0
IsColumn k = (is_utf8 k ≡ true) × Lacks 0 k

-- A row that the columns take: the status is an INT.
abbrev pub IsRow : Text → Record → Type 0
IsRow k rec =
    IsColumn k × (rec.status_code < 2 ^ 31) × IsDated rec.created_at × IsDated rec.expires_at

-- A database on which statements succeed. INSERT puts a row that the columns take; where the key has
-- a row, ON CONFLICT says whether that is replaced. DELETE removes the rows that meet its condition.
pub record IsUp (pool : Pool) : Type 0 where
  pub rows : pool.Db → Text → Option Record
  pub query_row-rows :
      (k : Text) (db : pool.Db) → IsColumn k → pool.query_row k db ≡ row_of (rows db k)
  pub rows-insert_update :
      (k j : Text) (rec : Record) (db : pool.Db)
      → IsRow k rec
      → rows (pool.exec (insert_row k rec do_update) db).1 j
        ≡ (if text_eq k j then some (stored rec) else rows db j)
  pub rows-insert_new :
      (k j : Text) (rec : Record) (db : pool.Db)
      → IsRow k rec
      → rows db k ≡ none
      → rows (pool.exec (insert_row k rec do_nothing) db).1 j
        ≡ (if text_eq k j then some (stored rec) else rows db j)
  pub rows-insert_nothing :
      (k j : Text) (rec old : Record) (db : pool.Db)
      → IsRow k rec
      → rows db k ≡ some old
      → rows (pool.exec (insert_row k rec do_nothing) db).1 j ≡ rows db j
  pub rows-delete :
      (k j : Text) (db : pool.Db)
      → IsColumn k
      → rows (pool.exec (delete_rows k none) db).1 j ≡ (if text_eq k j then none else rows db j)
  pub rows-delete_expired :
      (t : ℤ) (k j : Text) (db : pool.Db)
      → IsColumn k
      → rows (pool.exec (delete_rows k (some t)) db).1 j
        ≡ (if text_eq k j then live t (rows db j) else rows db j)

module _ (pool : Pool) (up : IsUp pool) where
  get-live :
      (t : ℤ) (k : Text) (p : PostgresStore pool)
      → IsColumn k
      → (get pool t k p).0 ≡ ok (live t (up.rows p.db k))
  unfolding get
  get-live t k p column = ground (arith, up.query_row-rows k p.db column)

  rows-save :
      (k j : Text) (rec : Record) (p : PostgresStore pool)
      → IsRow k rec
      → up.rows (save pool k rec p).1.db j
        ≡ (if text_eq k j then some (stored rec) else up.rows p.db j)
  unfolding save
  rows-save k j rec p fits = up.rows-insert_update k j rec p.db fits

  -- Over a database that answers, after a save that the columns take (a key of valid UTF-8 without a zero
  -- byte, a status below 2^31, times in the years 1 to 9998), whatever row the key had: a read of the key
  -- gets the saved record, its times cut to microseconds, until it expires, and a read of another
  -- key gets what it got before.
  pub get-save :
      (u : ℤ) (k j : Text) (rec : Record) (p : PostgresStore pool)
      → IsRow k rec
      → IsColumn j
      → (get pool u j (save pool k rec p).1).0
        ≡ (if text_eq k j then ok (live u (some (stored rec))) else (get pool u j p).0)
  get-save u k j rec p fits column = ground (
    arith,
    get-live u j (save pool k rec p).1 column,
    get-live u j p column,
    rows-save k j rec p fits,
  )

  -- A read that finds an expired row starts a deletion.
  get_expired :
      (t : ℤ) (k : Text) (old : Record) (p : PostgresStore pool)
      → IsColumn k
      → up.rows p.db k ≡ some old
      → after t old.expires_at ≡ true
      → p.pending ≡ []
      → (get pool t k p).1 ≡ record p { pending = k ∷ [] }
  unfolding get
  get_expired t k old p column found expired idle = ground (arith, up.query_row-rows k p.db column)

  rows-delete_key :
      (k j : Text) (p : PostgresStore pool)
      → IsColumn k
      → p.pending ≡ k ∷ []
      → up.rows (delete_key pool p).db j ≡ (if text_eq k j then none else up.rows p.db j)
  unfolding delete_key
  rows-delete_key k j p column e = ground (arith, up.rows-delete k j p.db column)

  pending-save :
      (k : Text) (rec : Record) (p : PostgresStore pool) → (save pool k rec p).1.pending ≡ p.pending
  unfolding save
  pending-save k rec p = refl

  -- Over a database that answers, the deletion that a read of an expired row starts may run after a save
  -- of the same key, which the columns take, and then it removes the new record, though that may not have
  -- expired; if it runs before the save, the record is read until it expires, its times cut to
  -- microseconds.
  pub get-delete_key-save :
      (t u : ℤ) (k : Text) (old rec : Record) (p : PostgresStore pool)
      → IsRow k rec
      → up.rows p.db k ≡ some old
      → after t old.expires_at ≡ true
      → p.pending ≡ []
      → ((get pool u k (delete_key pool (save pool k rec (get pool t k p).1).1)).0 ≡ ok none)
        × ((get pool u k (save pool k rec (delete_key pool (get pool t k p).1)).1).0
            ≡ ok (live u (some (stored rec))))
  get-delete_key-save t u k old rec p fits found expired idle =
      let started = get_expired t k old p fits.0 found expired idle in
      let late = (save pool k rec (get pool t k p).1).1 in
      let deleted = rows-delete_key k k late fits.0 (
        pending-save k rec (get pool t k p).1
        ∙ ap (λ (q : PostgresStore pool). q.pending) started) in
      (
        get-live u k (delete_key pool late) fits.0 ∙ rw (deleted, text_eq_refl k),
        get-live u k _ fits.0 ∙ rw (rows-save k k rec _ fits, text_eq_refl k),
      )
