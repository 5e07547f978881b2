-- ===== src/Contracts/Compliance.antt =====
-- The escrow contract over the user registry.
use railway.Base.{ℕ, ◌≤◌, ◌≡◌, true, false, not, arith, Option, none, some}
use railway.Text.{Text, text_eq}
use railway.Contracts.MintEscrow.{
  zero_bytes32, MintIntent, OpenZeppelin, Message, EscrowState, mint_done, execute_mint, returns,
}
use railway.Contracts.MintEscrow.Transactions.{Returns, past, AllReturns-returns}
use railway.Contracts.UserRegistry.{
  max_risk_score, Managers, RegistryState, is_compliant, Registered,
}
use railway.Contracts.UserRegistry.Laws.{Registered-IsAttested, is_compliant_iff}

module _ (oz : OpenZeppelin) (keccak256 : Text → Text) (word : ℕ → Text) (this : Text) where
  mint_done-Returns_true :
      (P : Type 0) (id : Text) (i : MintIntent) (day : ℕ) (t : Option oz.Tokens)
      (s : EscrowState oz)
      → P
      → Returns
          (λ (_ : Unit {0}) (_ : EscrowState oz). P)
          (mint_done oz keccak256 word this id i day t s)
  mint_done-Returns_true P id i day none s h = record { value = tt }
  mint_done-Returns_true P id i day (some tokens) s h = record { value = h }

  execute_mint-Returns_compliant :
      (msg : Message) (id : Text) (s : EscrowState oz)
      → Returns
          (λ (_ : Unit {0}) (_ : EscrowState oz).
            not (msg.is_compliant s.user_registry (s.intents id).user) ≡ false)
          (execute_mint oz keccak256 word this msg id s)
  unfolding execute_mint
  execute_mint-Returns_compliant msg id s = past _ _ _ _ (λ _. past _ _ _ _ (λ _. past _ _ _ _ (λ _.
      past _ _ _ _ (λ _. past _ _ _ _ (λ compliant.
        past _ _ _ _
          (λ _. past _ _ _ _ (λ _. mint_done-Returns_true _ id (s.intents id) _ _ s compliant)))))))

  -- Where the escrow asks a user registry, an intent is executed only if its user is registered, with a
  -- risk score of at most 91 and an attestation.
  pub execute_mint-is_compliant :
      (m : Managers) (msg : Message) (id : Text) (s u : EscrowState oz) (registry : RegistryState m)
      → Registered m registry
      → ((user : Text)
          → msg.is_compliant s.user_registry user ≡ is_compliant m msg.timestamp user registry)
      → execute_mint oz keccak256 word this msg id s ≡ returns tt u
      → ((registry.users (s.intents id).user).exists ≡ true)
        × ((registry.users (s.intents id).user).risk_score ≤ max_risk_score)
        × (text_eq (registry.users (s.intents id).user).attestation_hash zero_bytes32 ≡ false)
  execute_mint-is_compliant m msg id s u registry reached answers done =
      let user = (s.intents id).user in
      let asked : not (msg.is_compliant s.user_registry user) ≡ false =
        AllReturns-returns _ _ tt u (execute_mint-Returns_compliant msg id s).value done in
      let compliant : is_compliant m msg.timestamp user registry ≡ true =
        ground (arith, answers user, asked) in
      let (there, low) = (is_compliant_iff m msg.timestamp user registry reached).0 compliant in
      (there, low, (Registered-IsAttested m registry reached).attested user there)
