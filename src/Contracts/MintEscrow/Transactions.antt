-- ===== src/Contracts/MintEscrow/Transactions.antt =====
-- The transactions of contracts/src/MintEscrow.sol, one after the other.
use railway.Base.{ℕ, Bool, true, false, List, [], ◌∷◌, ◌≡◌, refl, subst}
use railway.Text.{Text}
use railway.Contracts.MintEscrow.{
  zero_address, MintIntent, pending, OpenZeppelin, Message, EscrowState, Outcome, Revert, reverts,
  returns, revert_if, submit_intent, execute_mint, refund_intent, set_stablecoin, set_user_registry,
  set_country_token, set_executor, pause, unpause,
}

-- An external function that changes the state, with its arguments.
pub data Action : Type 0 where
  submits : ℕ → Text → Text → Action
  executes : Text → Action
  refunds : Text → Text → Action
  sets_stablecoin sets_user_registry : Text → Action
  sets_country_token : Text → Text → Action
  sets_executor : Text → Bool → Action
  pauses unpauses : Action

abbrev pub no_intent : MintIntent
no_intent = record {
  user = zero_address;
  amount = 0;
  country_code = [];
  tx_ref = [];
  timestamp = 0;
  status = pending;
}

-- What a transaction leaves: one that reverts leaves the state as it was.
abbrev pub left_by : {A S : Type 0} → Outcome A S → S → S
left_by (reverts reason) s = s
left_by (returns a next) s = next

module _ {ℓ} {oz : OpenZeppelin} (P : EscrowState oz → Type ℓ) where
  -- What holds of the state that a call leaves.
  pub record Leaves {A : Type 0} (s : EscrowState oz) (o : Outcome A (EscrowState oz))
      : Type ℓ where
    pub state : P (left_by o s)

  -- A guard that reverts.
  pub guarded :
      {A : Type 0} (s : EscrowState oz) (b : Bool) (reason : Revert)
      (rest : Outcome A (EscrowState oz))
      → P s
      → (b ≡ false → Leaves s rest)
      → Leaves s (revert_if b reason rest)
  unfolding revert_if
  guarded s true reason rest h k = record { state = h }
  guarded s false reason rest h k = k refl

-- What holds of what a call returns, and of the state that it leaves.
abbrev pub AllReturns {ℓ} : {A S : Type 0} → (A → S → Type ℓ) → Outcome A S → Type ℓ
AllReturns Q (reverts reason) = Unit
AllReturns Q (returns a s) = Q a s

pub AllReturns-returns {ℓ} :
    {A S : Type 0} (Q : A → S → Type ℓ) (o : Outcome A S) (a : A) (s : S)
    → AllReturns Q o
    → o ≡ returns a s
    → Q a s
AllReturns-returns Q o a s h e = subst (AllReturns Q) e h

module _ {ℓ} {A S : Type 0} (Q : A → S → Type ℓ) where
  pub record Returns (o : Outcome A S) : Type ℓ where
    pub value : AllReturns Q o

  pub past :
      (b : Bool) (reason : Revert) (rest : Outcome A S)
      → (b ≡ false → Returns rest)
      → Returns (revert_if b reason rest)
  unfolding revert_if
  past true reason rest k = record { value = tt }
  past false reason rest k = k refl

module _ (oz : OpenZeppelin) (keccak256 : Text → Text) (word : ℕ → Text) (this : Text) where
  unfoldable pub transact : Message → Action → EscrowState oz → EscrowState oz
  transact msg (submits amount country tx_ref) s =
      left_by (submit_intent oz keccak256 word this msg amount country tx_ref s) s
  transact msg (executes id) s = left_by (execute_mint oz keccak256 word this msg id s) s
  transact msg (refunds id reason) s =
      left_by (refund_intent oz keccak256 word this msg id reason s) s
  transact msg (sets_stablecoin token) s =
      left_by (set_stablecoin oz keccak256 word this msg token s) s
  transact msg (sets_user_registry registry) s =
      left_by (set_user_registry oz keccak256 word this msg registry s) s
  transact msg (sets_country_token code token) s =
      left_by (set_country_token oz keccak256 word this msg code token s) s
  transact msg (sets_executor executor granted) s =
      left_by (set_executor oz keccak256 word this msg executor granted s) s
  transact msg pauses s = left_by (pause oz keccak256 word this msg s) s
  transact msg unpauses s = left_by (unpause oz keccak256 word this msg s) s

  -- The state that the constructor leaves: the admin's roles, and tokens of any state.
  abbrev pub deployed : oz.Access → oz.Tokens → EscrowState oz
  deployed access tokens = record {
    stablecoin = zero_address;
    user_registry = zero_address;
    intents = λ id. no_intent;
    tx_ref_consumed = λ tx_ref. false;
    country_tokens = λ code. zero_address;
    daily_minted = λ day. 0;
    access = access;
    tokens = tokens;
    events = [];
  }

  -- Each state after a deployment and transactions of anyone. Between two transactions the access, by
  -- AccessControl's own grantRole, revokeRole and renounceRole, and the tokens, which are contracts of
  -- their own, may change.
  pub data Reachable : EscrowState oz → Type 0 where
    at_start : (access : oz.Access) (tokens : oz.Tokens) → Reachable (deployed access tokens)
    after_transaction :
        (msg : Message) (action : Action) (s : EscrowState oz)
        → Reachable s
        → Reachable (transact msg action s)
    after_others :
        (access : oz.Access) (tokens : oz.Tokens) (s : EscrowState oz)
        → Reachable s
        → Reachable (record s { access = access; tokens = tokens })

  -- A transaction of MintEscrow, or what other calls leave of the access and of the tokens.
  pub data Change : Type 0 where
    transacts : Message → Action → Change
    others : oz.Access → oz.Tokens → Change

  unfoldable pub change : Change → EscrowState oz → EscrowState oz
  change (transacts msg action) s = transact msg action s
  change (others access tokens) s = record s { access = access; tokens = tokens }

  -- Changes, one after the other.
  unfoldable pub change_all : List Change → EscrowState oz → EscrowState oz
  change_all [] s = s
  change_all (c ∷ rest) s = change_all rest (change c s)
