-- ===== src/Contracts/UserRegistry.antt =====
-- contracts/src/UserRegistry.sol. A call is one transaction, and one that reverts changes nothing.
-- OpenZeppelin's AccessControl is an interface.
pub mod Laws
use railway.Base.{
  ℕ, ◌-◌, ◌==◌, ltb, Bool, true, false, not, ◌&&◌, ◌||◌, List, [], ◌∷◌, if◌then◌else◌,
}
use railway.Text.{Text, text_eq}
use railway.Contracts.MintEscrow.{zero_address, zero_bytes32, set}

-- The compliance settings of contracts/src/utils/SeedConstants.sol.
abbrev pub max_risk_score : ℕ
max_risk_score = 91

abbrev pub require_attestation : Bool
require_attestation = true

abbrev pub min_attestation_age : ℕ
min_attestation_age = 0

pub record UserData : Type 0 where
  pub risk_score : ℕ
  pub attestation_hash : Text
  pub attestation_type : Text
  pub risk_updated_at : ℕ
  pub attested_at : ℕ
  pub exists : Bool

pub data RegistryEvent : Type 0 where
  user_risk_updated : Text → ℕ → Text → ℕ → RegistryEvent
  attestation_recorded : Text → Text → Text → Text → RegistryEvent

-- AccessControl, for one role.
pub record Managers : Type 1 where
  pub Access : Type 0
  pub is_manager : Text → Access → Bool

pub record RegistryState (m : Managers) : Type 0 where
  pub users : Text → UserData
  pub access : m.Access
  pub events : List RegistryEvent

abbrev pub no_user : UserData
no_user = record {
  risk_score = 0;
  attestation_hash = zero_bytes32;
  attestation_type = zero_bytes32;
  risk_updated_at = 0;
  attested_at = 0;
  exists = false;
}

module _ (m : Managers) where
  -- `data.riskScore = …` to `known.exists = true`, and the attestation if there is one.
  abbrev updated : ℕ → ℕ → Text → Text → UserData → UserData
  updated now risk hash kind known =
      if text_eq hash zero_bytes32
      then record known { risk_score = risk; risk_updated_at = now; exists = true }
      else record known {
        risk_score = risk;
        risk_updated_at = now;
        exists = true;
        attestation_hash = hash;
        attestation_type = kind;
        attested_at = now;
      }

  abbrev announced : ℕ → Text → ℕ → Text → Text → Text → List RegistryEvent → List RegistryEvent
  announced now user risk hash kind actor events =
      if text_eq hash zero_bytes32
      then user_risk_updated user risk actor now ∷ events
      else attestation_recorded user hash kind actor
        ∷ user_risk_updated user risk actor now
        ∷ events

  -- updateUser, called by `sender` at `now`. The state is the old one where it reverts. `risk` is a
  -- uint8, and `now` fits a uint64.
  unfoldable pub update_user :
      Text → ℕ → Text → ℕ → Text → Text → Text → RegistryState m → RegistryState m
  update_user sender now user risk hash kind actor s =
      if not (m.is_manager sender s.access)
      then s
      else if text_eq user zero_address || text_eq actor zero_address
      then s
      else if ltb 100 risk
      then s
      else if require_attestation && text_eq hash zero_bytes32
      then s
      else record s {
        users = set user (updated now risk hash kind (s.users user)) s.users;
        events = announced now user risk hash kind actor s.events;
      }

  -- isCompliant at a time; the age of an attestation is not looked at, since the least age is 0.
  unfoldable pub is_compliant : ℕ → Text → RegistryState m → Bool
  is_compliant now user s =
      let known = s.users user in
      if not known.exists
      then false
      else if ltb max_risk_score known.risk_score
      then false
      else if not require_attestation
      then true
      else if text_eq known.attestation_hash zero_bytes32
      then false
      else if not (ltb 0 min_attestation_age)
      then true
      else if known.attested_at == 0
      then false
      else not (ltb (now - known.attested_at) min_attestation_age)

  -- A registry that has been deployed, and calls of anyone; between them its roles may change.
  pub data Registered : RegistryState m → Type 0 where
    at_start :
        (access : m.Access)
        → Registered (record { users = λ user. no_user; access = access; events = [] })
    after_update :
        (sender : Text) (now : ℕ) (user : Text) (risk : ℕ) (hash kind actor : Text)
        (s : RegistryState m)
        → Registered s
        → Registered (update_user sender now user risk hash kind actor s)
    after_roles :
        (access : m.Access) (s : RegistryState m)
        → Registered s
        → Registered (record s { access = access })
