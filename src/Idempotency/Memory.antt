-- ===== src/Idempotency/Memory.antt =====
-- MemoryStore of api/internal/idempotency/store.go. Each method holds the mutex throughout, so a call
-- is one step.
use railway.Base.{◌≡◌, refl, List, [], Option, none, some, arith, if◌then◌else◌}
use railway.Base.Int.{ℤ, ◌≤ℤ◌}
use railway.Base.Result.{Result, ok}
use railway.Text.{Text}
use railway.Time.{after}
use railway.Idempotency.Defs.{Record, live, Store, IsLawful}
use railway.Idempotency.Map.{lookup, insert, lookup-insert}

pub record MemoryStore : Type 0 where
  pub entries : List (Text × Record)

unfoldable pub new_memory_store : MemoryStore
new_memory_store = record { entries = [] }

-- The record found, unless time.Now() is past its end.
abbrev unexpired : ℤ → Option Record → Result (Option Record)
unexpired now none = ok none
unexpired now (some rec) = if after now rec.expires_at then ok none else ok (some rec)

unfoldable pub get : ℤ → Text → MemoryStore → Result (Option Record) × MemoryStore
unfolding lookup
get now key m = (unexpired now (lookup key m.entries), m)

unfoldable pub save : Text → Record → MemoryStore → Result (Unit {0}) × MemoryStore
unfolding insert
save key rec m = (ok tt, record { entries = insert key rec m.entries })

abbrev pub memory_store : Store
memory_store = record { State = MemoryStore; get = get; save = save }

get-live : (t : ℤ) (k : Text) (m : MemoryStore) → (get t k m).0 ≡ ok (live t (lookup k m.entries))
unfolding get
get-live t k m = ground arith

live-get :
    (t u : ℤ) (k j : Text) (m : MemoryStore)
    → t ≤ℤ u
    → live u (lookup j (get t k m).1.entries) ≡ live u (lookup j m.entries)
unfolding get
live-get t u k j m h = refl

-- The memory store keeps the promise of a store.
pub memory_store-IsLawful : IsLawful memory_store
unfolding save
memory_store-IsLawful = record {
  view = λ m k. lookup k m.entries;
  get-live = get-live;
  live-get = live-get;
  view-save = λ k j r m. lookup-insert k j r m.entries;
}
