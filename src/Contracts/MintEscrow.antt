-- ===== src/Contracts/MintEscrow.antt =====
-- contracts/src/MintEscrow.sol. A call is one transaction: nonReentrant keeps other calls out of it, and
-- one that reverts changes nothing. OpenZeppelin's contracts are an interface. A mapping is a function,
-- with Solidity's zero where nothing has been set. A uint256 is a natural number.
pub mod Defs
pub mod Transactions
pub mod Sound
pub mod Laws
pub mod Terms
use railway.Base.{
  ℕ, ◌+◌, ◌-◌, ◌*◌, ◌/◌, ◌^◌, ◌==◌, leb, ltb, Bool, true, false, not, ◌||◌, Option, none, some,
  List, [], ◌∷◌, ◌++◌, if◌then◌else◌, replicate,
}
use railway.Text.{Text, text_eq}
unfoldable pub use Defs.*

-- keccak256(abi.encodePacked(sender, amount, countryCode, txRef)), for the words of the arguments.
unfoldable pub contract_intent_id : (Text → Text) → Text → Text → Text → Text → Text
contract_intent_id keccak256 sender amount country tx_ref =
    keccak256 (sender ++ (amount ++ (country ++ tx_ref)))

-- `this` is the contract's address, `word` the 32 bytes of an amount.
module _ (oz : OpenZeppelin) (keccak256 : Text → Text) (word : ℕ → Text) (this : Text) where
  abbrev pub emit : Event → EscrowState oz → EscrowState oz
  emit e s = record s { events = e ∷ s.events }

  abbrev pub only_role :
      Role
      → Message
      → EscrowState oz
      → Outcome (Unit {0}) (EscrowState oz)
      → Outcome (Unit {0}) (EscrowState oz)
  only_role role msg s body =
      revert_if (not (oz.has_role role msg.sender s.access)) unauthorized body

  unfoldable pub set_stablecoin :
      Message → Text → EscrowState oz → Outcome (Unit {0}) (EscrowState oz)
  set_stablecoin msg token s = only_role admin_role msg s (
      revert_if (text_eq token zero_address) stablecoin_not_set
        (returns tt (emit (stablecoin_updated token msg.sender) (record s { stablecoin = token }))))

  unfoldable pub set_user_registry :
      Message → Text → EscrowState oz → Outcome (Unit {0}) (EscrowState oz)
  set_user_registry msg registry s = only_role admin_role msg s (
      revert_if (text_eq registry zero_address) user_registry_not_set (
        returns tt (
          emit (user_registry_updated registry msg.sender)
            (record s { user_registry = registry }))))

  unfoldable pub set_country_token :
      Message → Text → Text → EscrowState oz → Outcome (Unit {0}) (EscrowState oz)
  set_country_token msg code token s = only_role admin_role msg s (
      revert_if (text_eq token zero_address) (country_token_not_configured code) (
        returns tt (
          emit (country_token_configured code token msg.sender)
            (record s { country_tokens = set code token s.country_tokens }))))

  unfoldable pub set_executor :
      Message → Text → Bool → EscrowState oz → Outcome (Unit {0}) (EscrowState oz)
  set_executor msg executor granted s = only_role admin_role msg s (
      returns tt (
        emit (executor_updated executor granted msg.sender) (record s {
          access =
              if granted
              then oz.grant_role executor_role executor s.access
              else oz.revoke_role executor_role executor s.access;
        })))

  abbrev pub switched :
      Revert → Option oz.Access → EscrowState oz → Outcome (Unit {0}) (EscrowState oz)
  switched reason none s = reverts reason
  switched reason (some access) s = returns tt (record s { access = access })

  unfoldable pub pause : Message → EscrowState oz → Outcome (Unit {0}) (EscrowState oz)
  pause msg s = only_role admin_role msg s (switched paused (oz.pause s.access) s)

  unfoldable pub unpause : Message → EscrowState oz → Outcome (Unit {0}) (EscrowState oz)
  unpause msg s = only_role admin_role msg s (switched not_paused (oz.unpause s.access) s)

  -- After the transfer of the deposit.
  abbrev pub deposited :
      Message
      → ℕ
      → Text
      → Text
      → Text
      → Option oz.Tokens
      → EscrowState oz
      → Outcome Text (EscrowState oz)
  deposited msg amount country tx_ref id none s = reverts transfer_failed
  deposited msg amount country tx_ref id (some tokens) s = returns id (
      emit (intent_submitted id msg.sender amount country tx_ref) (record s {
        tokens = tokens;
        tx_ref_consumed = set tx_ref true s.tx_ref_consumed;
        intents =
            set id
              (record {
                user = msg.sender;
                amount = amount;
                country_code = country;
                tx_ref = tx_ref;
                timestamp = msg.timestamp;
                status = pending;
              })
              s.intents;
      }))

  unfoldable pub submit_intent :
      Message → ℕ → Text → Text → EscrowState oz → Outcome Text (EscrowState oz)
  submit_intent msg amount country tx_ref s =
      let id = contract_intent_id keccak256 msg.sender (word amount) country tx_ref in
      revert_if (oz.is_paused s.access) paused (
        revert_if (text_eq s.stablecoin zero_address) stablecoin_not_set (
          revert_if (text_eq s.user_registry zero_address) user_registry_not_set (
            revert_if (ltb amount min_mint_amount || ltb max_mint_amount amount) invalid_amount (
              revert_if (text_eq country zero_bytes32) invalid_country_code (
                revert_if (text_eq (s.country_tokens country) zero_address)
                  (country_token_not_configured country)
                  (revert_if (text_eq tx_ref zero_bytes32) invalid_tx_ref (
                    revert_if (s.tx_ref_consumed tx_ref) (tx_ref_already_consumed tx_ref) (
                      revert_if (not (text_eq (s.intents id).user zero_address))
                        intent_already_exists
                        (deposited msg amount country tx_ref id
                          (oz.safe_transfer_from s.stablecoin this msg.sender this amount s.tokens)
                          s)))))))))

  unfoldable pub available_minting_capacity : ℕ → EscrowState oz → ℕ
  available_minting_capacity day s =
      if leb daily_mint_limit (s.daily_minted day) then 0 else daily_mint_limit - s.daily_minted day

  -- After the mint of the token.
  abbrev pub mint_done :
      Text
      → MintIntent
      → ℕ
      → Option oz.Tokens
      → EscrowState oz
      → Outcome (Unit {0}) (EscrowState oz)
  mint_done id intent day none s = reverts transfer_failed
  mint_done id intent day (some tokens) s = returns tt (
      emit (mint_executed id intent.user intent.amount intent.country_code intent.tx_ref)
        (record s {
          tokens = tokens;
          intents = set id (record intent { status = executed }) s.intents;
          daily_minted = add_to day intent.amount s.daily_minted;
        }))

  unfoldable pub execute_mint :
      Message → Text → EscrowState oz → Outcome (Unit {0}) (EscrowState oz)
  execute_mint msg id s =
      let intent = s.intents id in
      let token = s.country_tokens intent.country_code in
      let day = msg.timestamp / 86400 in
      let available = available_minting_capacity day s in
      revert_if (oz.is_paused s.access) paused (
        only_role executor_role msg s (
          revert_if (text_eq intent.user zero_address) intent_not_found (
            revert_if (not (is_pending intent.status)) intent_already_executed (
              revert_if (not (msg.is_compliant s.user_registry intent.user)) user_not_compliant (
                revert_if (text_eq token zero_address)
                  (country_token_not_configured intent.country_code)
                  (revert_if (ltb available intent.amount)
                    (daily_limit_exceeded intent.amount available)
                    (mint_done id intent day (oz.mint token this intent.user intent.amount s.tokens)
                      s)))))))

  abbrev pub refund_done :
      Text
      → MintIntent
      → Text
      → Option oz.Tokens
      → EscrowState oz
      → Outcome (Unit {0}) (EscrowState oz)
  refund_done id intent reason none s = reverts transfer_failed
  refund_done id intent reason (some tokens) s = returns tt (
      emit (mint_refunded id intent.user intent.amount reason) (record s {
        tokens = tokens;
        intents = set id (record intent { status = refunded }) s.intents;
      }))

  unfoldable pub refund_intent :
      Message → Text → Text → EscrowState oz → Outcome (Unit {0}) (EscrowState oz)
  refund_intent msg id reason s =
      let intent = s.intents id in
      only_role executor_role msg s (
        revert_if (text_eq intent.user zero_address) intent_not_found (
          revert_if (not (is_pending intent.status)) intent_already_executed (
            refund_done id intent reason
              (oz.safe_transfer s.stablecoin this intent.user intent.amount s.tokens) s)))
