-- ===== src/Idempotency/File/Synced.antt =====
-- A file store whose disk is up to date, on a file system without errors.
use railway.FilePath.{dir}
use railway.Base.{
  ◌≡◌, refl, List, Option, none, some, arith, ap, sym, ◌∙◌, inl, inr, Bool-cases, subst, true,
}
use railway.Base.Int.{ℤ}
use railway.Base.Result.{ok, ◌>>=◌, Result-cases}
use railway.Text.{Text, text_eq, text_eq_iff}
use railway.Text.Utf8.{is_utf8}
use railway.Time.{after}
use railway.Idempotency.Defs.{Record, IsDated}
use railway.Idempotency.Map.{lookup, insert, delete, lookup-insert, lookup-delete}
use railway.Idempotency.File.{Os, Read, FileStore, load, new_file_store, answer, persist, get, save}
use railway.Idempotency.File.Durable.{IsFaithful, AllUtf8, Opens, Opens-of, persist-writes}

-- Each key is valid UTF-8, and each record has such times.
abbrev pub AllEncodable : List (Text × Record) → Type 0
AllEncodable m =
    (k : Text) (rec : Record)
    → lookup k m ≡ some rec
    → (is_utf8 k ≡ true) × IsDated rec.created_at × IsDated rec.expires_at

AllUtf8-AllEncodable : (m : List (Text × Record)) → AllEncodable m → AllUtf8 m
AllUtf8-AllEncodable m good k rec found = (good k rec found).0

-- The directory of the store's file can be made, the file can be written, and such a map can be
-- encoded.
pub record IsReliable (os : Os) (path : Text) : Type 0 where
  pub makes : (d : os.Disk) → (os.mkdir_all (dir path) d).0 ≡ ok tt
  pub writes : (blob : Text) (d : os.Disk) → (os.write_file path blob d).0 ≡ ok tt
  pub encodes :
      (m : List (Text × Record)) → AllEncodable m → (blob : Text) × (os.encode m ≡ ok blob)

AllEncodable-delete :
    (k : Text) (m : List (Text × Record)) → AllEncodable m → AllEncodable (delete k m)
AllEncodable-delete k m dated j rec found = elim (Bool-cases (text_eq k j)) [
  | inl same ↦ absurd (ground (arith, lookup-delete k j m))
  | inr other ↦ dated j rec (ground (arith, lookup-delete k j m))
]

AllEncodable-insert :
    (k : Text) (new : Record) (m : List (Text × Record))
    → is_utf8 k ≡ true
    → IsDated new.created_at
    → IsDated new.expires_at
    → AllEncodable m
    → AllEncodable (insert k new m)
AllEncodable-insert k new m valid created expires dated j rec found =
    elim (Bool-cases (text_eq k j)) [
      | inl same ↦
          let e : new ≡ rec = ground (arith, lookup-insert k j new m) in
          (
            subst (λ i. is_utf8 i ≡ true) ((text_eq_iff k j).0 same) valid,
            subst (λ x. IsDated x.created_at) e created,
            subst (λ x. IsDated x.expires_at) e expires,
          )
      | inr other ↦ dated j rec (ground (arith, lookup-insert k j new m))
    ]

module _ (os : Os) (faithful : IsFaithful os) (path : Text) where
  -- A store opened on the disk would hold what the store holds.
  abbrev pub IsSynced : FileStore os → Type 0
  IsSynced f = (f.path ≡ path) × AllEncodable f.entries × Opens os faithful path f.disk f.entries

  opened_at :
      (found : Read) (disk : os.Disk) (f : FileStore os)
      → (load os found >>= λ entries. ok (record { path = path; entries = entries; disk = disk }))
        ≡ ok f
      → (f.path ≡ path) × (f.disk ≡ disk)
  opened_at found disk f e = elim (Result-cases (load os found)) [
    | inl (m, bad) ↦ absurd (ground arith)
    | inr (m, good) ↦ (ground arith, ground arith)
  ]

  -- It is, when it has been opened.
  pub new_file_store-IsSynced :
      (disk : os.Disk) (f : FileStore os)
      → new_file_store os path disk ≡ ok f
      → AllEncodable f.entries
      → IsSynced f
  unfolding new_file_store
  new_file_store-IsSynced disk f opened dated =
      let (at, on) = opened_at (os.read_file path disk) disk f opened in
      (at, dated, (f, ap (new_file_store os path) on ∙ opened, λ k. refl))

  module _ (reliable : IsReliable os path) where
    persist-ok :
        (f : FileStore os) → f.path ≡ path → AllEncodable f.entries → (persist os f).0 ≡ ok tt
    unfolding persist
    persist-ok f at dated =
        let (blob, encoded) = reliable.encodes f.entries dated in
        let made = reliable.makes f.disk in
        let written = reliable.writes blob (os.mkdir_all (dir path) f.disk).1 in
        rw (at, made, encoded, written)

    persist-IsSynced :
        (f : FileStore os) → f.path ≡ path → AllEncodable f.entries → IsSynced (persist os f).1
    persist-IsSynced f at dated =
        let g = (persist os f).1 in
        let (blob, d, encoded, written, same_path, same) =
          persist-writes os faithful f g (ap (λ r. (r, g)) (persist-ok f at dated)) in
        (
          same_path ∙ at,
          subst AllEncodable (sym same) dated,
          subst (Opens os faithful path g.disk) (sym same) (
              Opens-of os faithful path g.disk f.entries blob (AllUtf8-AllEncodable f.entries dated)
                encoded
                (faithful.read-write path blob d g.disk
                  (subst (λ q. os.write_file q blob d ≡ (ok tt, g.disk)) at written))),
        )

    answer-IsSynced :
        (t : ℤ) (key : Text) (found : Option Record) (f : FileStore os)
        → IsSynced f
        → IsSynced (answer os t key found f).1
    answer-IsSynced t key none f synced = synced
    answer-IsSynced t key (some rec) f (at, dated, opens) =
        elim (Bool-cases (after t rec.expires_at)) [
          | inl expired ↦ rw expired (
              persist-IsSynced (record f { entries = delete key f.entries }) at
                (AllEncodable-delete key f.entries dated))
          | inr kept ↦ rw kept (at, dated, opens)
        ]

    pub get-IsSynced :
        (t : ℤ) (key : Text) (f : FileStore os) → IsSynced f → IsSynced (get os t key f).1
    unfolding get
    get-IsSynced t key f synced = answer-IsSynced t key _ f synced

    pub save-IsSynced :
        (key : Text) (rec : Record) (f : FileStore os)
        → is_utf8 key ≡ true
        → IsDated rec.created_at
        → IsDated rec.expires_at
        → IsSynced f
        → IsSynced (save os key rec f).1
    unfolding save
    save-IsSynced key rec f valid created expires (at, dated, opens) =
        persist-IsSynced (record f { entries = insert key rec f.entries }) at
          (AllEncodable-insert key rec f.entries valid created expires dated)
