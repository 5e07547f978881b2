-- ===== src/Examples/Users.antt =====
-- An execution that asks a registry with one user.
use railway.Base.{◌≤◌, ◌≡◌, refl, true, false, [], replicate}
use railway.Text.{codes, text_eq}
use railway.Contracts.MintEscrow.{
  zero_bytes32, Message, EscrowState, submit_intent, execute_mint, set_stablecoin,
  set_user_registry, set_country_token, available_minting_capacity, revert_if, contract_intent_id,
  returns,
}
use railway.Contracts.MintEscrow.Transactions.{left_by, transact}
use railway.Contracts.UserRegistry.{
  max_risk_score, no_user, Managers, RegistryState, update_user, is_compliant, Registered, at_start,
  after_update,
}
use railway.Contracts.Compliance.{execute_mint-is_compliant}
use railway.Examples.Contract.{oz, keccak256, word, this, account, api, pending_id, submitted}

abbrev managers : Managers
managers = record { Access = Unit {0}; is_manager = λ sender access. true }

abbrev registry : RegistryState managers
registry =
    update_user managers (account 5) 100 (account 7) 12 (replicate 32 1) (replicate 32 2)
      (account 5) (record { users = λ user. no_user; access = tt; events = [] })

registry-Registered : Registered managers registry
registry-Registered = after_update (account 5) 100 (account 7) 12 _ _ (account 5) _ (at_start tt)

abbrev asking : Message
asking = record api { is_compliant = λ contract user. is_compliant managers 86400 user registry }

abbrev executed : EscrowState oz
executed = left_by (execute_mint oz keccak256 word this asking pending_id submitted) submitted

done : execute_mint oz keccak256 word this asking pending_id submitted ≡ returns tt executed
unfolding transact set_stablecoin set_user_registry set_country_token submit_intent execute_mint
    available_minting_capacity revert_if contract_intent_id text_eq codes update_user is_compliant
done = refl

execute_mint-is_compliant_example :
    ((registry.users (submitted.intents pending_id).user).exists ≡ true)
    × ((registry.users (submitted.intents pending_id).user).risk_score ≤ max_risk_score)
    × (text_eq (registry.users (submitted.intents pending_id).user).attestation_hash zero_bytes32
        ≡ false)
execute_mint-is_compliant_example =
    execute_mint-is_compliant oz keccak256 word this managers asking pending_id submitted executed
      registry registry-Registered (λ user. refl) done
