-- ===== src/Idempotency/File/Durable.antt =====
-- A file store that is opened again after a save.
use railway.FilePath.{dir}
use railway.Base.{◌≡◌, List, some, arith, true, false, inl, inr, Bool-cases, subst}
use railway.Base.Result.{ok, Result-cases}
use railway.Text.{Text, is_empty, text_eq, text_eq_iff}
use railway.Text.Utf8.{is_utf8}
use railway.Idempotency.Defs.{Record}
use railway.Idempotency.Map.{lookup, insert, lookup-insert}
use railway.Idempotency.File.{Os, contents, FileStore, new_file_store, persist, save}

-- The keys are valid UTF-8. encoding/json writes every other byte as U+FFFD.
abbrev pub AllUtf8 : List (Text × Record) → Type 0
AllUtf8 m = (k : Text) (rec : Record) → lookup k m ≡ some rec → is_utf8 k ≡ true

AllUtf8-insert :
    (k : Text) (new : Record) (m : List (Text × Record))
    → is_utf8 k ≡ true
    → AllUtf8 m
    → AllUtf8 (insert k new m)
AllUtf8-insert k new m valid all j rec found = elim (Bool-cases (text_eq k j)) [
  | inl same ↦ subst (λ i. is_utf8 i ≡ true) ((text_eq_iff k j).0 same) valid
  | inr other ↦ all j rec (ground (arith, lookup-insert k j new m))
]

-- What the store relies on: a file that was written without an error is read back, and what
-- json.MarshalIndent wrote of a map with such keys is a text that json.Unmarshal reads as a map with
-- the same entries.
pub record IsFaithful (os : Os) : Type 0 where
  pub read-write :
      (path blob : Text) (d e : os.Disk)
      → os.write_file path blob d ≡ (ok tt, e)
      → os.read_file path e ≡ contents blob
  pub encode-ne-nil :
      (m : List (Text × Record)) (blob : Text) → os.encode m ≡ ok blob → is_empty blob ≡ false
  pub decode-encode :
      (m : List (Text × Record)) (blob : Text)
      → AllUtf8 m
      → os.encode m ≡ ok blob
      → (m' : List (Text × Record)) × (os.decode blob ≡ ok m')
        × ((k : Text) → lookup k m' ≡ lookup k m)

module _ (os : Os) (faithful : IsFaithful os) where
  -- What a store holds when it is opened on a disk.
  abbrev pub Opens : Text → os.Disk → List (Text × Record) → Type 0
  Opens path disk m =
      (f : FileStore os) × (new_file_store os path disk ≡ ok f)
      × ((k : Text) → lookup k f.entries ≡ lookup k m)

  -- A persist that reports no error has encoded the map and written it.
  pub persist-writes :
      (f g : FileStore os)
      → persist os f ≡ (ok tt, g)
      → (blob : Text) × (d : os.Disk) × (os.encode f.entries ≡ ok blob)
        × (os.write_file f.path blob d ≡ (ok tt, g.disk))
        × (g.path ≡ f.path)
        × (g.entries ≡ f.entries)
  unfolding persist
  persist-writes f g e = elim (Result-cases (os.mkdir_all (dir f.path) f.disk).0) [
    | inl (m, bad) ↦ absurd (ground arith)
    | inr (made, good) ↦ elim (Result-cases (os.encode f.entries)) [
      | inl (m, bad) ↦ absurd (ground arith)
      | inr (blob, encoded) ↦ (
        blob,
        (os.mkdir_all (dir f.path) f.disk).1,
        encoded,
        ground arith,
        ground arith,
        ground arith,
      )
    ]
  ]

  pub Opens-of :
      (path : Text) (disk : os.Disk) (m : List (Text × Record)) (blob : Text)
      → AllUtf8 m
      → os.encode m ≡ ok blob
      → os.read_file path disk ≡ contents blob
      → Opens path disk m
  unfolding new_file_store
  Opens-of path disk m blob valid encoded found =
      let (m', decoded, same) = faithful.decode-encode m blob valid encoded in
      (
        record { path = path; entries = m'; disk = disk },
        ground (arith, faithful.encode-ne-nil m blob encoded),
        same,
      )

  -- After a Save that reports no error, with keys that are valid UTF-8, a store opened at the same path
  -- on the disk that the Save left holds what the store held: the saved record and the entries before it.
  pub save-Opens :
      (f g : FileStore os) (key : Text) (rec : Record)
      → is_utf8 key ≡ true
      → AllUtf8 f.entries
      → save os key rec f ≡ (ok tt, g)
      → Opens f.path g.disk (insert key rec f.entries)
  unfolding save
  save-Opens f g key rec valid all e =
      let (blob, d, encoded, written, _, _) =
        persist-writes (record f { entries = insert key rec f.entries }) g e in
      Opens-of f.path g.disk _ blob (AllUtf8-insert key rec f.entries valid all) encoded
        (faithful.read-write f.path blob d g.disk written)
