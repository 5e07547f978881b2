-- ===== src/Contracts/MintEscrow/Laws.antt =====
-- The reachable states of contracts/src/MintEscrow.sol.
use railway.Base.{ℕ, ltb, ◌≡◌, refl, true, false, not, Option, none, some, arith, ◌∙◌}
use railway.Text.{Text, text_eq, text_eq_refl}
use railway.Contracts.MintEscrow.{
  zero_address, MintStatus, pending, executed, refunded, failed, OpenZeppelin, Message, EscrowState,
  Revert, deposited, mint_done, refund_done, switched, is_pending, available_minting_capacity,
  submit_intent, execute_mint, refund_intent, set_stablecoin, set_user_registry, set_country_token,
  set_executor, pause, unpause,
}
use railway.Contracts.MintEscrow.Transactions.{
  Action, submits, executes, refunds, sets_stablecoin, sets_user_registry, sets_country_token,
  sets_executor, pauses, unpauses, Leaves, guarded, transact, Reachable, at_start,
  after_transaction, after_others,
}
use railway.Contracts.MintEscrow.Sound.{
  settlements, IsThere, IsSound, submitted-IsSound, settled-IsSound,
}

is_pending_eq : (status : MintStatus) → not (is_pending status) ≡ false → status ≡ pending
is_pending_eq pending e = refl
is_pending_eq executed e = cc
is_pending_eq refunded e = cc
is_pending_eq failed e = cc

module _ (oz : OpenZeppelin) (keccak256 : Text → Text) (word : ℕ → Text) (this : Text) where
  -- A call that changes nothing that soundness is about.
  same-IsSound :
      (s t : EscrowState oz)
      → t.intents ≡ s.intents
      → t.tx_ref_consumed ≡ s.tx_ref_consumed
      → ((k : Text) → settlements k t.events ≡ settlements k s.events)
      → t.daily_minted ≡ s.daily_minted
      → IsSound oz s
      → IsSound oz t
  same-IsSound s t intents consumed events daily sound = record {
    settled = λ k. events k ∙ rw intents (sound.settled k);
    absent = λ k. rw intents (sound.absent k);
    consumed = λ k. rw (intents, consumed) (sound.consumed k);
    unique = λ k j. rw intents (sound.unique k j);
    limited = λ day. rw daily (sound.limited day);
  }

  deposited-IsSound :
      (msg : Message) (amount : ℕ) (country tx_ref id : Text) (t : Option oz.Tokens)
      (s : EscrowState oz)
      → IsSound oz s
      → s.tx_ref_consumed tx_ref ≡ false
      → text_eq (s.intents id).user zero_address ≡ true
      → Leaves (IsSound oz) s (deposited oz keccak256 word this msg amount country tx_ref id t s)
  deposited-IsSound msg amount country tx_ref id none s sound fresh free = record { state = sound }
  deposited-IsSound msg amount country tx_ref id (some tokens) s sound fresh free = record {
    state = submitted-IsSound oz s sound id _ _ fresh free refl refl refl (λ k. refl) refl;
  }

  submit_intent-IsSound :
      (msg : Message) (amount : ℕ) (country tx_ref : Text) (s : EscrowState oz)
      → IsSound oz s
      → Leaves (IsSound oz) s (submit_intent oz keccak256 word this msg amount country tx_ref s)
  unfolding submit_intent
  submit_intent-IsSound msg amount country tx_ref s sound =
      guarded (IsSound oz) s _ _ _ sound (λ unpaused. guarded (IsSound oz) s _ _ _ sound (λ coin.
        guarded (IsSound oz) s _ _ _ sound (λ registry.
          guarded (IsSound oz) s _ _ _ sound (λ in_range.
            guarded (IsSound oz) s _ _ _ sound (λ code. guarded (IsSound oz) s _ _ _ sound (λ token.
              guarded (IsSound oz) s _ _ _ sound (λ named.
                guarded (IsSound oz) s _ _ _ sound (λ fresh.
                  guarded (IsSound oz) s _ _ _ sound (λ free.
                    deposited-IsSound msg amount country tx_ref _ _ s sound fresh
                      (ground (arith, free)))))))))))

  mint_done-IsSound :
      (id : Text) (day : ℕ) (t : Option oz.Tokens) (s : EscrowState oz)
      → IsSound oz s
      → IsThere (s.intents id)
      → (s.intents id).status ≡ pending
      → ltb (available_minting_capacity oz keccak256 word this day s) (s.intents id).amount ≡ false
      → Leaves (IsSound oz) s (mint_done oz keccak256 word this id (s.intents id) day t s)
  unfolding available_minting_capacity
  mint_done-IsSound id day none s sound there waiting fits = record { state = sound }
  mint_done-IsSound id day (some tokens) s sound there waiting fits = record {
    state =
        settled-IsSound oz s sound id executed _ there waiting refl refl refl (λ k. refl)
          (λ d. ground (arith, sound.limited d, fits));
  }

  execute_mint-IsSound :
      (msg : Message) (id : Text) (s : EscrowState oz)
      → IsSound oz s
      → Leaves (IsSound oz) s (execute_mint oz keccak256 word this msg id s)
  unfolding execute_mint
  execute_mint-IsSound msg id s sound = guarded (IsSound oz) s _ _ _ sound (λ unpaused.
      guarded (IsSound oz) s _ _ _ sound (λ granted. guarded (IsSound oz) s _ _ _ sound (λ there.
        guarded (IsSound oz) s _ _ _ sound (λ waiting.
          guarded (IsSound oz) s _ _ _ sound (λ compliant.
            guarded (IsSound oz) s _ _ _ sound (λ token.
              guarded (IsSound oz) s _ _ _ sound (λ fits.
                mint_done-IsSound id _ _ s sound there (is_pending_eq _ waiting) fits)))))))

  refund_done-IsSound :
      (id reason : Text) (t : Option oz.Tokens) (s : EscrowState oz)
      → IsSound oz s
      → IsThere (s.intents id)
      → (s.intents id).status ≡ pending
      → Leaves (IsSound oz) s (refund_done oz keccak256 word this id (s.intents id) reason t s)
  refund_done-IsSound id reason none s sound there waiting = record { state = sound }
  refund_done-IsSound id reason (some tokens) s sound there waiting = record {
    state =
        settled-IsSound oz s sound id refunded _ there waiting refl refl refl (λ k. refl)
          sound.limited;
  }

  refund_intent-IsSound :
      (msg : Message) (id reason : Text) (s : EscrowState oz)
      → IsSound oz s
      → Leaves (IsSound oz) s (refund_intent oz keccak256 word this msg id reason s)
  unfolding refund_intent
  refund_intent-IsSound msg id reason s sound = guarded (IsSound oz) s _ _ _ sound (λ granted.
      guarded (IsSound oz) s _ _ _ sound (λ there.
        guarded (IsSound oz) s _ _ _ sound
          (λ waiting. refund_done-IsSound id reason _ s sound there (is_pending_eq _ waiting))))

  switched-IsSound :
      (reason : Revert) (access : Option oz.Access) (s : EscrowState oz)
      → IsSound oz s
      → Leaves (IsSound oz) s (switched oz keccak256 word this reason access s)
  switched-IsSound reason none s sound = record { state = sound }
  switched-IsSound reason (some access) s sound = record {
    state = same-IsSound s _ refl refl (λ k. refl) refl sound;
  }

  transact-IsSound :
      (msg : Message) (action : Action) (s : EscrowState oz)
      → IsSound oz s
      → IsSound oz (transact oz keccak256 word this msg action s)
  unfolding transact set_stablecoin set_user_registry set_country_token set_executor pause unpause
  transact-IsSound msg (submits amount country tx_ref) s sound =
      (submit_intent-IsSound msg amount country tx_ref s sound).state
  transact-IsSound msg (executes id) s sound = (execute_mint-IsSound msg id s sound).state
  transact-IsSound msg (refunds id reason) s sound =
      (refund_intent-IsSound msg id reason s sound).state
  transact-IsSound msg (sets_stablecoin token) s sound =
      (guarded (IsSound oz) s _ _ _ sound (λ granted.
        guarded (IsSound oz) s _ _ _ sound (λ some_token. record {
          state = same-IsSound s _ refl refl (λ k. refl) refl sound;
        }))).state
  transact-IsSound msg (sets_user_registry registry) s sound =
      (guarded (IsSound oz) s _ _ _ sound (λ granted.
        guarded (IsSound oz) s _ _ _ sound (λ some_registry. record {
          state = same-IsSound s _ refl refl (λ k. refl) refl sound;
        }))).state
  transact-IsSound msg (sets_country_token code token) s sound =
      (guarded (IsSound oz) s _ _ _ sound (λ granted.
        guarded (IsSound oz) s _ _ _ sound (λ some_token. record {
          state = same-IsSound s _ refl refl (λ k. refl) refl sound;
        }))).state
  transact-IsSound msg (sets_executor executor granted) s sound =
      (guarded (IsSound oz) s _ _ _ sound
        (λ granted. record { state = same-IsSound s _ refl refl (λ k. refl) refl sound })).state
  transact-IsSound msg pauses s sound =
      (guarded (IsSound oz) s _ _ _ sound (λ granted. switched-IsSound _ _ s sound)).state
  transact-IsSound msg unpauses s sound =
      (guarded (IsSound oz) s _ _ _ sound (λ granted. switched-IsSound _ _ s sound)).state

  -- After any transactions of anyone, and any changes of the roles and of the tokens between them: each
  -- intent has one event that settles it, a mint or a refund, if it is executed or refunded, and none if
  -- it is pending; no two intents have one reference; and no day's mints exceed the limit.
  pub Reachable-IsSound : (s : EscrowState oz) → Reachable oz keccak256 word this s → IsSound oz s
  Reachable-IsSound _ (at_start access tokens) = record {
    settled = λ k. refl;
    absent = λ k h. refl;
    consumed = λ k h. absurd (ground (arith, h, text_eq_refl zero_address));
    unique = λ k j h. absurd (ground (arith, h, text_eq_refl zero_address));
    limited = λ day. omega arith;
  }
  Reachable-IsSound _ (after_transaction msg action s reached) =
      transact-IsSound msg action s (Reachable-IsSound s reached)
  Reachable-IsSound _ (after_others access tokens s reached) =
      same-IsSound s _ refl refl (λ k. refl) refl (Reachable-IsSound s reached)
