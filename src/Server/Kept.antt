-- ===== src/Server/Kept.antt =====
-- What the lookups and the saves of a request keep of a store.
use railway.Base.{ℕ}
use railway.Text.{Text}
use railway.Config.{ServiceConfig}
use railway.Server.Defs.{Parts, State, Readings}
use railway.Server.Mint.{saved_record}

module _ (p : Parts) (cfg : ServiceConfig) where
  -- A lookup and a save, at the times of one request and the save under a key of `K`, keep `P`.
  pub record IsKept {κ} (K : Text → Type 0) (P : p.store.State → Type κ) (now : Readings)
      : Type κ where
    pub get_keeps : (key : Text) (s : p.store.State) → P s → P (p.store.get now.lookup key s).1
    pub save_keeps :
        (key : Text) (status : ℕ) (b : Text) (s : p.store.State)
        → K key
        → P s
        → P (p.store.save key (saved_record p cfg now status b) s).1

  -- `P` of the records that a state has.
  abbrev pub OfRecords {κ} : (p.store.State → Type κ) → State p → Type κ
  OfRecords P s = P s.records
