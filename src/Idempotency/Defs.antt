-- ===== src/Idempotency/Defs.antt =====
-- The types Record and Store of api/internal/idempotency/store.go.
use railway.Base.{ℕ, ◌*◌, ◌^◌, ◌≡◌, Option, none, some, if◌then◌else◌}
use railway.Base.Int.{ℤ, pos, negsuc, ◌≤ℤ◌}
use railway.Base.Result.{Result, ok}
use railway.Text.{Text, text_eq}
use railway.Time.{after}

pub record Record : Type 0 where
  pub status_code : ℕ
  pub response : Text
  pub created_at : ℤ
  pub expires_at : ℤ

-- A time in the years 1 to 9998, in any zone: time.Time's MarshalJSON reports an error for a year
-- with more than four digits, and a database takes such times too.
abbrev pub IsDated : ℤ → Type 0
IsDated t = (negsuc (62135596800 * 10 ^ 9) ≤ℤ t) × (t ≤ℤ pos (253370764800 * 10 ^ 9))

-- The abstract view of an entry at a time: a record that has expired is not there.
abbrev pub live : ℤ → Option Record → Option Record
live now none = none
live now (some r) = if after now r.expires_at then none else some r

-- `get` takes what time.Now() returns in the call. `ok none` is the pair (nil, nil).
pub record Store : Type 1 where
  pub State : Type 0
  pub get : ℤ → Text → State → Result (Option Record) × State
  pub save : Text → Record → State → Result (Unit {0}) × State

-- What a store promises: it refines a map from keys to records in which expired records are absent.
-- A read may drop what it finds expired, and shows at no later time. A save that reports an error
-- may have taken effect.
pub record IsLawful (S : Store) : Type 0 where
  pub view : S.State → Text → Option Record
  pub get-live : (t : ℤ) (k : Text) (s : S.State) → (S.get t k s).0 ≡ ok (live t (view s k))
  pub live-get :
      (t u : ℤ) (k j : Text) (s : S.State)
      → t ≤ℤ u
      → live u (view (S.get t k s).1 j) ≡ live u (view s j)
  pub view-save :
      (k j : Text) (r : Record) (s : S.State)
      → view (S.save k r s).1 j ≡ (if text_eq k j then some r else view s j)
