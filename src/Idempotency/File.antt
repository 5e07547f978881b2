-- ===== src/Idempotency/File.antt =====
-- FileStore of api/internal/idempotency/store.go. Each method holds the mutex throughout, so a call is
-- one step. The file system and encoding/json are an interface.
pub mod Durable
pub mod Synced
use railway.FilePath.{dir}
use railway.Base.{◌≡◌, refl, List, [], ◌∷◌, Option, none, some, arith, if◌then◌else◌}
use railway.Base.Int.{ℤ, ◌≤ℤ◌}
use railway.Base.Result.{Result, ok, err, ◌>>=◌}
use railway.Text.{Text, is_empty, text_eq, text_eq_iff}
use railway.Time.{after}
use railway.Idempotency.Defs.{Record, live, Store, IsLawful}
use railway.Idempotency.Map.{lookup, insert, delete, lookup-insert, lookup-delete}

-- What os.ReadFile returns; `not_exist` is an error that errors.Is finds to be os.ErrNotExist.
pub data Read : Type 0 where
  contents : Text → Read
  not_exist : Read
  unreadable : Text → Read

-- The calls of package os, and json.MarshalIndent and json.Unmarshal at the map of records.
pub record Os : Type 1 where
  pub Disk : Type 0
  pub read_file : Text → Disk → Read
  pub write_file : Text → Text → Disk → Result (Unit {0}) × Disk
  pub mkdir_all : Text → Disk → Result (Unit {0}) × Disk
  pub encode : List (Text × Record) → Result Text
  pub decode : Text → Result (List (Text × Record))

module _ (os : Os) where
  open os use {Disk, read_file, write_file, mkdir_all, encode, decode}

  -- The store and the disk that it writes to.
  pub record FileStore : Type 0 where
    pub path : Text
    pub entries : List (Text × Record)
    pub disk : Disk

  -- A file that is missing or empty leaves the map as it is.
  unfoldable pub load : Read → Result (List (Text × Record))
  load not_exist = ok []
  load (unreadable e) = err e
  load (contents blob) = if is_empty blob then ok [] else decode blob

  unfoldable pub new_file_store : Text → Disk → Result FileStore
  unfolding load
  new_file_store path disk = load (read_file path disk) >>= λ entries.
      ok (record { path = path; entries = entries; disk = disk })

  abbrev write_blob : Result Text → FileStore → Result (Unit {0}) × FileStore
  write_blob (err e) f = (err e, f)
  write_blob (ok blob) f =
      let (result, disk) = write_file f.path blob f.disk in (result, record f { disk = disk })

  abbrev write_entries : Result (Unit {0}) → FileStore → Result (Unit {0}) × FileStore
  write_entries (err e) f = (err e, f)
  write_entries (ok _) f = write_blob (encode f.entries) f

  unfoldable pub persist : FileStore → Result (Unit {0}) × FileStore
  persist f =
      let (made, disk) = mkdir_all (dir f.path) f.disk in
      write_entries made (record f { disk = disk })

  abbrev answer : ℤ → Text → Option Record → FileStore → Result (Option Record) × FileStore
  answer now key none f = (ok none, f)
  answer now key (some rec) f =
      if after now rec.expires_at
      then (ok none, (persist (record f { entries = delete key f.entries })).1)
      else (ok (some rec), f)

  unfoldable pub get : ℤ → Text → FileStore → Result (Option Record) × FileStore
  get now key f = answer now key (lookup key f.entries) f

  unfoldable pub save : Text → Record → FileStore → Result (Unit {0}) × FileStore
  save key rec f = persist (record f { entries = insert key rec f.entries })

  abbrev pub file_store : Store
  file_store = record { State = FileStore; get = get; save = save }

  entries-persist : (f : FileStore) → (persist f).1.entries ≡ f.entries
  unfolding persist
  entries-persist f = ground arith

  pub get-live :
      (t : ℤ) (k : Text) (f : FileStore) → (get t k f).0 ≡ ok (live t (lookup k f.entries))
  unfolding get
  get-live t k f = ground arith

  live-get :
      (t u : ℤ) (k j : Text) (f : FileStore)
      → t ≤ℤ u
      → live u (lookup j (get t k f).1.entries) ≡ live u (lookup j f.entries)
  unfolding get
  live-get t u k j f h = ground (
    arith,
    entries-persist (record f { entries = delete k f.entries }),
    lookup-delete k j f.entries,
    text_eq_iff k j,
  )

  view-save :
      (k j : Text) (r : Record) (f : FileStore)
      → lookup j (save k r f).1.entries ≡ (if text_eq k j then some r else lookup j f.entries)
  unfolding save
  view-save k j r f = rw entries-persist (lookup-insert k j r f.entries)

  -- The file store keeps the promise of a store, whatever the file system does.
  pub file_store-IsLawful : IsLawful file_store
  file_store-IsLawful = record {
    view = λ f k. lookup k f.entries;
    get-live = get-live;
    live-get = live-get;
    view-save = view-save;
  }
