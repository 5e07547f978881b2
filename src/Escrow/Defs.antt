-- ===== src/Escrow/Defs.antt =====
-- api/internal/escrow/interfaces.go: the messages and the interface of the on-chain escrow.
use railway.Base.Result.{Result}
use railway.Text.{Text}

pub record SubmitIntentRequest : Type 0 where
  pub user_address : Text
  pub amount : Text
  pub country_code : Text
  pub tx_ref : Text

pub record SubmitIntentResponse : Type 0 where
  pub intent_id : Text
  pub tx_hash : Text

pub record ExecuteMintResponse : Type 0 where
  pub tx_hash : Text

-- A call may change the chain also where it reports an error.
pub record Client : Type 1 where
  pub Chain : Type 0
  pub submit_intent : SubmitIntentRequest → Chain → Result SubmitIntentResponse × Chain
  pub execute_mint : Text → Chain → Result ExecuteMintResponse × Chain
