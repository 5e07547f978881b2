-- ===== src/Examples/Disk.antt =====
-- A disk with one file. The file has the records one after the other, each text behind its length.
use railway.Base.{ℕ, zero, suc, ◌≡◌, refl, List, [], ◌∷◌, ◌++◌, Option, none, some, length, ap, sym}
use railway.Base.Int.{ℤ, pos, negsuc}
use railway.Base.Result.{Result, ok}
use railway.Text.{Text, is_empty}
use railway.Idempotency.{Record}
use railway.Idempotency.File.{Os, contents, not_exist}
use railway.Idempotency.File.Durable.{IsFaithful}
use railway.Idempotency.File.Synced.{IsReliable}
use railway.Examples.Setting.{config}

abbrev split : ℕ → Text → Text × Text
split zero s = ([], s)
split (suc n) [] = ([], [])
split (suc n) (c ∷ s) = let rest = split n s in (c ∷ rest.0, rest.1)

split-length : (k s : Text) → split (length k) (k ++ s) ≡ (k, s)
split-length [] s = refl
split-length (c ∷ k) s = rw (split-length k s)

abbrev sign : ℤ → ℕ
sign (pos n) = 0
sign (negsuc n) = 1

abbrev magnitude : ℤ → ℕ
magnitude (pos n) = n
magnitude (negsuc n) = n

abbrev signed : ℕ → ℕ → ℤ
signed zero n = pos n
signed (suc s) n = negsuc n

signed-sign : (z : ℤ) → signed (sign z) (magnitude z) ≡ z
signed-sign (pos n) = refl
signed-sign (negsuc n) = refl

abbrev entries_text : List (Text × Record) → Text
entries_text [] = []
entries_text ((k, r) ∷ m) =
    length k
    ∷ (k
        ++ (r.status_code
            ∷ sign r.created_at
            ∷ magnitude r.created_at
            ∷ sign r.expires_at
            ∷ magnitude r.expires_at
            ∷ length r.response
            ∷ (r.response ++ entries_text m)))

abbrev read_record : Text → Record × Text
read_record (status ∷ s ∷ created ∷ t ∷ expires ∷ n ∷ text) =
    let (response, rest) = split n text in
    (
      record {
        status_code = status;
        response = response;
        created_at = signed s created;
        expires_at = signed t expires;
      },
      rest,
    )
read_record _ =
    (record { status_code = 0; response = []; created_at = pos 0; expires_at = pos 0 }, [])

abbrev read_entries : ℕ → Text → List (Text × Record)
read_entries zero text = []
read_entries (suc n) [] = []
read_entries (suc n) (l ∷ text) =
    let key = split l text in
    let value = read_record key.1 in (key.0, value.0) ∷ read_entries n value.1

read_entries-entries_text :
    (m : List (Text × Record)) → read_entries (length m) (entries_text m) ≡ m
read_entries-entries_text [] = refl
read_entries-entries_text ((k, r) ∷ m) = rw (
  split-length k,
  split-length r.response,
  signed-sign r.created_at,
  signed-sign r.expires_at,
  read_entries-entries_text m,
)

abbrev decode_entries : Text → Result (List (Text × Record))
decode_entries [] = ok []
decode_entries (n ∷ text) = ok (read_entries n text)

abbrev pub one_file : Os
one_file = record {
  Disk = Option Text;
  read_file = λ path d. elim d [ none ↦ not_exist | some blob ↦ contents blob ];
  write_file = λ path blob d. (ok tt, some blob);
  mkdir_all = λ path d. (ok tt, d);
  encode = λ m. ok (length m ∷ entries_text m);
  decode = decode_entries;
}

blob_eq :
    (m : List (Text × Record)) (blob : Text)
    → one_file.encode m ≡ ok blob
    → length m ∷ entries_text m ≡ blob
blob_eq m blob e = cc

pub one_file-IsFaithful : IsFaithful one_file
one_file-IsFaithful = record {
  read-write = λ path blob d e h.
      ap (λ (p : Result (Unit {0}) × Option Text). one_file.read_file path p.1) (sym h);
  encode-ne-nil = λ m blob h. ap is_empty (sym (blob_eq m blob h));
  decode-encode = λ m blob valid h.
      (m, rw (sym (blob_eq m blob h)) (ap ok (read_entries-entries_text m)), λ k. refl);
}

pub one_file-IsReliable : IsReliable one_file config.service.idempotency_store_path
one_file-IsReliable = record {
  makes = λ d. refl;
  writes = λ blob d. refl;
  encodes = λ m dated. (length m ∷ entries_text m, refl);
}
