-- ===== src/Examples/Contract.antt =====
-- The escrow contract, with tokens that count their calls and roles that everyone has.
use railway.Base.{ℕ, ◌+◌, ◌*◌, ◌^◌, ◌≡◌, refl, Bool, true, false, List, [], ◌∷◌, some, replicate}
use railway.Text.{Text, codes, text_eq}
use railway.Contracts.MintEscrow.{
  OpenZeppelin, Message, EscrowState, returns, contract_intent_id, revert_if, submit_intent,
  execute_mint, available_minting_capacity, zero_address, mint_executed, set_stablecoin,
  set_user_registry, set_country_token,
}
use railway.Contracts.MintEscrow.Transactions.{
  Action, submits, executes, sets_stablecoin, sets_user_registry, sets_country_token, left_by,
  deployed, Reachable, at_start, after_transaction, transact, Change, transacts, others, change,
  change_all,
}
use railway.Contracts.MintEscrow.Sound.{settlements, IsSound}
use railway.Contracts.MintEscrow.Laws.{Reachable-IsSound}
use railway.Contracts.MintEscrow.Terms.{execute_mint-submit_intent}

-- Access is whether the contract is paused.
abbrev pub oz : OpenZeppelin
oz = record {
  Access = Bool;
  has_role = λ role account paused. true;
  grant_role = λ role account paused. paused;
  revoke_role = λ role account paused. paused;
  is_paused = λ paused. paused;
  pause = λ paused. some true;
  unpause = λ paused. some false;
  Tokens = ℕ;
  safe_transfer_from = λ token caller from to amount n. some (n + 1);
  safe_transfer = λ token caller to amount n. some (n + 1);
  mint = λ token caller to amount n. some (n + 1);
}

abbrev pub keccak256 : Text → Text
keccak256 s = s

abbrev pub word : ℕ → Text
word n = n ∷ []

abbrev pub this : Text
this = replicate 20 9

abbrev pub account : ℕ → Text
account n = replicate 20 n

abbrev pub api : Message
api = record { sender = account 7; timestamp = 86400; is_compliant = λ registry user. true }

abbrev pub run : Message → Action → EscrowState oz → EscrowState oz
run = transact oz keccak256 word this

abbrev pub configured : EscrowState oz
configured = run api (sets_country_token (codes "KES") (account 3)) (
    run api (sets_user_registry (account 2))
      (run api (sets_stablecoin (account 1)) (deployed oz keccak256 word this false 0)))

abbrev pub pending_id : Text
pending_id =
    contract_intent_id keccak256 (account 7) (word (5 * 10 ^ 18)) (codes "KES") (codes "tx-1")

abbrev pub submitted : EscrowState oz
submitted = run api (submits (5 * 10 ^ 18) (codes "KES") (codes "tx-1")) configured

pub submitted-Reachable : Reachable oz keccak256 word this submitted
submitted-Reachable = after_transaction api _ _ (
    after_transaction api _ _
      (after_transaction api _ _ (after_transaction api _ _ (at_start false 0))))

abbrev minted : EscrowState oz
minted = run api (executes pending_id) submitted

minted_once : settlements pending_id minted.events ≡ 1
unfolding transact set_stablecoin set_user_registry set_country_token submit_intent execute_mint
    available_minting_capacity revert_if contract_intent_id text_eq codes
minted_once = refl

Reachable-IsSound_example : IsSound oz minted
Reachable-IsSound_example =
    Reachable-IsSound oz keccak256 word this minted (after_transaction api _ _ submitted-Reachable)

-- Another account submits under the reference, in vain, and the tokens change, before the execution.
abbrev between : List (Change oz keccak256 word this)
between =
    transacts (record api { sender = account 8 })
      (submits (5 * 10 ^ 18) (codes "KES") (codes "tx-1"))
    ∷ others false 40
    ∷ []

abbrev before : EscrowState oz
before = change_all oz keccak256 word this between submitted

abbrev executed_late : EscrowState oz
executed_late = left_by (execute_mint oz keccak256 word this api pending_id before) before

taken :
    submit_intent oz keccak256 word this api (5 * 10 ^ 18) (codes "KES") (codes "tx-1") configured
    ≡ returns pending_id submitted
unfolding transact set_stablecoin set_user_registry set_country_token submit_intent revert_if
    contract_intent_id text_eq codes
taken = refl

done : execute_mint oz keccak256 word this api pending_id before ≡ returns tt executed_late
unfolding transact change_all change set_stablecoin set_user_registry set_country_token
    submit_intent execute_mint available_minting_capacity revert_if contract_intent_id text_eq codes
done = refl

real : text_eq api.sender zero_address ≡ false
unfolding text_eq
real = refl

execute_mint-submit_intent_example :
    (oz.mint (before.country_tokens (codes "KES")) this api.sender (5 * 10 ^ 18) before.tokens
      ≡ some executed_late.tokens)
    × (executed_late.events
        ≡ mint_executed pending_id api.sender (5 * 10 ^ 18) (codes "KES") (codes "tx-1")
          ∷ before.events)
execute_mint-submit_intent_example =
    execute_mint-submit_intent oz keccak256 word this api api (5 * 10 ^ 18) (codes "KES")
      (codes "tx-1") pending_id between configured submitted executed_late real taken done
