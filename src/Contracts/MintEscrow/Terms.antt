-- ===== src/Contracts/MintEscrow/Terms.antt =====
-- The terms of an intent of contracts/src/MintEscrow.sol: its user, its amount, its country and reference.
use railway.Base.{
  ℕ, ◌≡◌, refl, Bool, true, false, Option, none, some, List, [], ◌∷◌, arith, ◌∙◌, subst,
}
use railway.Text.{Text, text_eq, text_eq_refl}
use railway.Contracts.MintEscrow.{
  zero_address, MintIntent, mint_executed, OpenZeppelin, Message, EscrowState, set, executed,
  refunded, Outcome, Revert, deposited, mint_done, refund_done, switched, submit_intent,
  execute_mint, refund_intent, set_stablecoin, set_user_registry, set_country_token, set_executor,
  pause, unpause, returns, MintStatus,
}
use railway.Contracts.MintEscrow.Transactions.{
  Action, submits, executes, refunds, sets_stablecoin, sets_user_registry, sets_country_token,
  sets_executor, pauses, unpauses, Leaves, guarded, Returns, past, AllReturns-returns, transact,
  Change, transacts, others, change, change_all,
}
use railway.Contracts.MintEscrow.Sound.{IsThere, set_elim}

-- The same intent, but for its time and its status.
abbrev pub SameTerms : MintIntent → MintIntent → Type 0
SameTerms i j =
    (i.user ≡ j.user)
    × (i.amount ≡ j.amount)
    × (i.country_code ≡ j.country_code)
    × (i.tx_ref ≡ j.tx_ref)

module _ (oz : OpenZeppelin) (keccak256 : Text → Text) (word : ℕ → Text) (this : Text) where
  module _ (id : Text) (s : EscrowState oz) (there : IsThere (s.intents id)) where
    abbrev Keeps : EscrowState oz → Type 0
    Keeps t = SameTerms (s.intents id) (t.intents id)

    kept : Keeps s
    kept = (refl, refl, refl, refl)

    deposited-Keeps :
        (msg : Message) (amount : ℕ) (country tx_ref j : Text) (t : Option oz.Tokens)
        → text_eq (s.intents j).user zero_address ≡ true
        → Leaves Keeps s (deposited oz keccak256 word this msg amount country tx_ref j t s)
    deposited-Keeps msg amount country tx_ref j none free = record { state = kept }
    deposited-Keeps msg amount country tx_ref j (some tokens) free = record {
      state =
          set_elim (λ i. SameTerms (s.intents id) i) j id _ s.intents
            (λ e. absurd (cc (there, free, e))) (λ other. kept);
    }

    -- A settlement of an intent keeps its terms.
    settled-Keeps :
        (j : Text) (status : MintStatus)
        → SameTerms (s.intents id) (set j (record (s.intents j) { status = status }) s.intents id)
    settled-Keeps j status =
        set_elim (λ i. SameTerms (s.intents id) i) j id _ s.intents
          (λ e. subst (λ k. SameTerms (s.intents k) (s.intents j)) e (refl, refl, refl, refl))
          (λ other. kept)

    mint_done-Keeps :
        (j : Text) (day : ℕ) (t : Option oz.Tokens)
        → Leaves Keeps s (mint_done oz keccak256 word this j (s.intents j) day t s)
    mint_done-Keeps j day none = record { state = kept }
    mint_done-Keeps j day (some tokens) = record { state = settled-Keeps j executed }

    refund_done-Keeps :
        (j reason : Text) (t : Option oz.Tokens)
        → Leaves Keeps s (refund_done oz keccak256 word this j (s.intents j) reason t s)
    refund_done-Keeps j reason none = record { state = kept }
    refund_done-Keeps j reason (some tokens) = record { state = settled-Keeps j refunded }

    switched-Keeps :
        (reason : Revert) (access : Option oz.Access)
        → Leaves Keeps s (switched oz keccak256 word this reason access s)
    switched-Keeps reason none = record { state = kept }
    switched-Keeps reason (some access) = record { state = kept }

    -- A call without a guard of its own.
    behind :
        {A : Type 0} (b : Bool) (reason : Revert) (rest : Outcome A (EscrowState oz))
        → Leaves Keeps s rest
        → Leaves Keeps s (railway.Contracts.MintEscrow.revert_if b reason rest)
    behind b reason rest h = guarded Keeps s b reason rest kept (λ e. h)

    submit_intent-Keeps :
        (msg : Message) (amount : ℕ) (country tx_ref : Text)
        → Leaves Keeps s (submit_intent oz keccak256 word this msg amount country tx_ref s)
    unfolding submit_intent
    submit_intent-Keeps msg amount country tx_ref = behind _ _ _ (
        behind _ _ _ (
          behind _ _ _ (
            behind _ _ _ (
              behind _ _ _ (
                behind _ _ _ (
                  behind _ _ _ (
                    behind _ _ _ (
                      guarded Keeps s _ _ _ kept (λ free.
                        deposited-Keeps msg amount country tx_ref _ _
                          (ground (arith, free)))))))))))

    execute_mint-Keeps :
        (msg : Message) (j : Text) → Leaves Keeps s (execute_mint oz keccak256 word this msg j s)
    unfolding execute_mint
    execute_mint-Keeps msg j = behind _ _ _ (
        behind _ _ _ (
          behind _ _ _
            (behind _ _ _ (behind _ _ _ (behind _ _ _ (behind _ _ _ (mint_done-Keeps j _ _)))))))

    refund_intent-Keeps :
        (msg : Message) (j reason : Text)
        → Leaves Keeps s (refund_intent oz keccak256 word this msg j reason s)
    unfolding refund_intent
    refund_intent-Keeps msg j reason =
        behind _ _ _ (behind _ _ _ (behind _ _ _ (refund_done-Keeps j reason _)))

    transact-Keeps :
        (msg : Message) (action : Action) → Keeps (transact oz keccak256 word this msg action s)
    unfolding transact set_stablecoin set_user_registry set_country_token set_executor pause unpause
    transact-Keeps msg (submits amount country tx_ref) =
        (submit_intent-Keeps msg amount country tx_ref).state
    transact-Keeps msg (executes j) = (execute_mint-Keeps msg j).state
    transact-Keeps msg (refunds j reason) = (refund_intent-Keeps msg j reason).state
    transact-Keeps msg (sets_stablecoin token) =
        (behind _ _ _ (behind _ _ _ (record { state = kept }))).state
    transact-Keeps msg (sets_user_registry registry) =
        (behind _ _ _ (behind _ _ _ (record { state = kept }))).state
    transact-Keeps msg (sets_country_token code token) =
        (behind _ _ _ (behind _ _ _ (record { state = kept }))).state
    transact-Keeps msg (sets_executor executor granted) =
        (behind _ _ _ (record { state = kept })).state
    transact-Keeps msg pauses = (behind _ _ _ (switched-Keeps _ _)).state
    transact-Keeps msg unpauses = (behind _ _ _ (switched-Keeps _ _)).state

  change-SameTerms :
      (c : Change oz keccak256 word this) (id : Text) (s : EscrowState oz)
      → IsThere (s.intents id)
      → SameTerms (s.intents id) ((change oz keccak256 word this c s).intents id)
  unfolding change
  change-SameTerms (transacts msg action) id s there = transact-Keeps id s there msg action
  change-SameTerms (others access tokens) id s there = (refl, refl, refl, refl)

  change_all-SameTerms :
      (between : List (Change oz keccak256 word this)) (id : Text) (s : EscrowState oz)
      → IsThere (s.intents id)
      → SameTerms (s.intents id) ((change_all oz keccak256 word this between s).intents id)
  unfolding change_all
  change_all-SameTerms [] id s there = (refl, refl, refl, refl)
  change_all-SameTerms (c ∷ rest) id s there =
      let (user, amount, country, tx_ref) = change-SameTerms c id s there in
      let (user', amount', country', tx_ref') =
        change_all-SameTerms rest id (change oz keccak256 word this c s)
          (subst (λ u. text_eq u zero_address ≡ false) user there) in
      (user ∙ user', amount ∙ amount', country ∙ country', tx_ref ∙ tx_ref')

  abbrev submission : Message → ℕ → Text → Text → MintIntent
  submission msg amount country tx_ref = record {
    user = msg.sender;
    amount = amount;
    country_code = country;
    tx_ref = tx_ref;
    timestamp = msg.timestamp;
    status = railway.Contracts.MintEscrow.pending;
  }

  deposited-Returns :
      (msg : Message) (amount : ℕ) (country tx_ref id : Text) (t : Option oz.Tokens)
      (s : EscrowState oz)
      → Returns
          (λ j t. t.intents j ≡ submission msg amount country tx_ref)
          (deposited oz keccak256 word this msg amount country tx_ref id t s)
  deposited-Returns msg amount country tx_ref id none s = record { value = tt }
  deposited-Returns msg amount country tx_ref id (some tokens) s = record {
    value = rw (text_eq_refl id);
  }

  submit_intent-Returns :
      (msg : Message) (amount : ℕ) (country tx_ref : Text) (s : EscrowState oz)
      → Returns
          (λ j t. t.intents j ≡ submission msg amount country tx_ref)
          (submit_intent oz keccak256 word this msg amount country tx_ref s)
  unfolding submit_intent
  submit_intent-Returns msg amount country tx_ref s = past _ _ _ _ (λ _. past _ _ _ _ (λ _.
      past _ _ _ _ (λ _. past _ _ _ _ (λ _. past _ _ _ _ (λ _. past _ _ _ _ (λ _. past _ _ _ _ (λ _.
        past _ _ _ _
          (λ _. past _ _ _ _ (λ _. deposited-Returns msg amount country tx_ref _ _ s)))))))))

  -- The token of the country is minted to the intent's user, and the event says so.
  abbrev IsMintOf : Text → MintIntent → EscrowState oz → EscrowState oz → Type 0
  IsMintOf id i s u =
      (oz.mint (s.country_tokens i.country_code) this i.user i.amount s.tokens ≡ some u.tokens)
      × (u.events ≡ mint_executed id i.user i.amount i.country_code i.tx_ref ∷ s.events)

  mint_done-Returns :
      (id : Text) (day : ℕ) (i : MintIntent) (s : EscrowState oz) (t : Option oz.Tokens)
      → oz.mint (s.country_tokens i.country_code) this i.user i.amount s.tokens ≡ t
      → Returns (λ _ u. IsMintOf id i s u) (mint_done oz keccak256 word this id i day t s)
  mint_done-Returns id day i s none e = record { value = tt }
  mint_done-Returns id day i s (some tokens) e = record { value = (e, refl) }

  execute_mint-Returns :
      (msg : Message) (id : Text) (s : EscrowState oz)
      → Returns
          (λ _ u. IsMintOf id (s.intents id) s u)
          (execute_mint oz keccak256 word this msg id s)
  unfolding execute_mint
  execute_mint-Returns msg id s = past _ _ _ _ (λ _. past _ _ _ _ (λ _. past _ _ _ _ (λ _.
      past _ _ _ _ (λ _. past _ _ _ _ (λ _.
        past _ _ _ _ (λ _. past _ _ _ _ (λ _. mint_done-Returns id _ (s.intents id) s _ refl)))))))

  IsMintOf-SameTerms :
      (id : Text) (i j : MintIntent) (s u : EscrowState oz)
      → SameTerms j i
      → IsMintOf id i s u
      → IsMintOf id j s u
  IsMintOf-SameTerms id i j s u (user, sum, code, reference) (minted, event) =
      rw (user, sum, code, reference) (minted, event)

  -- An intent that an account submits, and that is executed after any transactions of anyone and any
  -- changes of the roles and of the tokens, is minted to that account, whoever the payment is for: in the
  -- amount, for the country and under the reference of the submission.
  pub execute_mint-submit_intent :
      (msg late : Message) (amount : ℕ) (country tx_ref id : Text)
      (between : List (Change oz keccak256 word this)) (s t u : EscrowState oz)
      → text_eq msg.sender zero_address ≡ false
      → submit_intent oz keccak256 word this msg amount country tx_ref s ≡ returns id t
      → execute_mint oz keccak256 word this late id (change_all oz keccak256 word this between t)
        ≡ returns tt u
      → (let before = change_all oz keccak256 word this between t in
          (oz.mint (before.country_tokens country) this msg.sender amount before.tokens
            ≡ some u.tokens)
          × (u.events ≡ mint_executed id msg.sender amount country tx_ref ∷ before.events))
  execute_mint-submit_intent msg late amount country tx_ref id between s t u real taken done =
      let before = change_all oz keccak256 word this between t in
      let made : t.intents id ≡ submission msg amount country tx_ref =
        AllReturns-returns _ _ id t (submit_intent-Returns msg amount country tx_ref s).value
          taken in
      let same : SameTerms (submission msg amount country tx_ref) (before.intents id) =
        subst (λ i. SameTerms i (before.intents id)) made
          (change_all-SameTerms between id t (rw made real)) in
      IsMintOf-SameTerms id (before.intents id) (submission msg amount country tx_ref) before u same
        (AllReturns-returns _ _ tt u (execute_mint-Returns late id before).value done)
