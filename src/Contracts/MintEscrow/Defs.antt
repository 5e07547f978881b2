-- ===== src/Contracts/MintEscrow/Defs.antt =====
-- The types and the state of contracts/src/MintEscrow.sol, with those of IMintEscrow.sol, and OpenZeppelin's
-- contracts as an interface.
use railway.Base.{ℕ, ◌+◌, ◌*◌, ◌^◌, ◌==◌, Bool, true, false, Option, List, if◌then◌else◌, replicate}
use railway.Text.{Text, text_eq}

-- The limits of contracts/src/utils/SeedConstants.sol.
abbrev pub min_mint_amount : ℕ
min_mint_amount = 10 ^ 18

abbrev pub max_mint_amount : ℕ
max_mint_amount = 1000 * 10 ^ 18

abbrev pub daily_mint_limit : ℕ
daily_mint_limit = 10000 * 10 ^ 18

-- address(0) and bytes32(0)
abbrev pub zero_address : Text
zero_address = replicate 20 0

abbrev pub zero_bytes32 : Text
zero_bytes32 = replicate 32 0

pub data MintStatus : Type 0 where
  pending executed refunded failed : MintStatus

-- status == MintStatus.Pending
abbrev pub is_pending : MintStatus → Bool
is_pending pending = true
is_pending _ = false

pub record MintIntent : Type 0 where
  pub user : Text
  pub amount : ℕ
  pub country_code : Text
  pub tx_ref : Text
  pub timestamp : ℕ
  pub status : MintStatus

pub data Event : Type 0 where
  intent_submitted : Text → Text → ℕ → Text → Text → Event
  mint_executed : Text → Text → ℕ → Text → Text → Event
  mint_refunded : Text → Text → ℕ → Text → Event
  country_token_configured : Text → Text → Text → Event
  stablecoin_updated user_registry_updated : Text → Text → Event
  executor_updated : Text → Bool → Text → Event

pub data Revert : Type 0 where
  invalid_address stablecoin_not_set user_registry_not_set : Revert
  daily_limit_exceeded : ℕ → ℕ → Revert
  country_token_not_configured tx_ref_already_consumed : Text → Revert
  invalid_tx_ref intent_already_exists intent_not_found user_not_compliant invalid_amount : Revert
  invalid_country_code intent_already_executed transfer_failed unauthorized not_paused paused :
      Revert

-- A result with the next state, or the reason of a revert.
pub data Outcome (A S : Type 0) : Type 0 where
  reverts : Revert → Outcome A S
  returns : A → S → Outcome A S

-- if (condition) { revert reason; }
unfoldable pub revert_if : {A S : Type 0} → Bool → Revert → Outcome A S → Outcome A S
revert_if condition reason rest = if condition then reverts reason else rest

pub data Role : Type 0 where
  admin_role executor_role : Role

-- AccessControl, Pausable and the tokens of OpenZeppelin. A transfer or a mint is `none` where it
-- reverts; its first argument is the token, its second the caller.
pub record OpenZeppelin : Type 1 where
  pub Access : Type 0
  pub has_role : Role → Text → Access → Bool
  pub grant_role : Role → Text → Access → Access
  pub revoke_role : Role → Text → Access → Access
  pub is_paused : Access → Bool
  pub pause : Access → Option Access
  pub unpause : Access → Option Access
  pub Tokens : Type 0
  pub safe_transfer_from : Text → Text → Text → Text → ℕ → Tokens → Option Tokens
  pub safe_transfer : Text → Text → Text → ℕ → Tokens → Option Tokens
  pub mint : Text → Text → Text → ℕ → Tokens → Option Tokens

-- What a transaction has: msg.sender, block.timestamp, and what the registry at an address answers to
-- isCompliant.
pub record Message : Type 0 where
  pub sender : Text
  pub timestamp : ℕ
  pub is_compliant : Text → Text → Bool

-- mapping[key] = value
abbrev pub set {ℓ} : {V : Type ℓ} → Text → V → (Text → V) → Text → V
set key value m k = if text_eq key k then value else m k

abbrev pub add_to : ℕ → ℕ → (ℕ → ℕ) → ℕ → ℕ
add_to day amount m d = if day == d then m d + amount else m d

pub record EscrowState (oz : OpenZeppelin) : Type 0 where
  pub stablecoin : Text
  pub user_registry : Text
  pub intents : Text → MintIntent
  pub tx_ref_consumed : Text → Bool
  pub country_tokens : Text → Text
  pub daily_minted : ℕ → ℕ
  pub access : oz.Access
  pub tokens : oz.Tokens
  pub events : List Event
