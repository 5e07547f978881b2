-- ===== src/Contracts/MintEscrow/Sound.antt =====
-- What the state of the escrow contract has, and what keeps it.
use railway.Base.{
  ℕ, ◌+◌, ◌≤◌, ◌≡◌, refl, true, false, List, [], ◌∷◌, arith, Bool-cases, inl, inr, if◌then◌else◌,
  ap, sym, ◌∙◌, subst,
}
use railway.Text.{Text, text_eq, text_eq_refl, text_eq_iff}
use railway.Contracts.MintEscrow.{
  daily_mint_limit, zero_address, MintStatus, pending, executed, refunded, failed, MintIntent,
  Event, mint_executed, mint_refunded, OpenZeppelin, EscrowState, set,
}

-- The events that settle an intent: a mint or a refund.
abbrev pub settlements : Text → List Event → ℕ
settlements id [] = 0
settlements id (mint_executed j user amount country tx_ref ∷ es) =
    (if text_eq j id then 1 else 0) + settlements id es
settlements id (mint_refunded j user amount reason ∷ es) =
    (if text_eq j id then 1 else 0) + settlements id es
settlements id (_ ∷ es) = settlements id es

abbrev pub spent : MintStatus → ℕ
spent pending = 0
spent _ = 1

pub spent-le : (status : MintStatus) → spent status ≤ 1
spent-le pending = omega arith
spent-le executed = omega arith
spent-le refunded = omega arith
spent-le failed = omega arith

-- An intent is there: its user is not address(0).
abbrev pub IsThere : MintIntent → Type 0
IsThere intent = text_eq intent.user zero_address ≡ false

module _ (oz : OpenZeppelin) where
  pub record IsSound (s : EscrowState oz) : Type 0 where
    pub settled : (id : Text) → settlements id s.events ≡ spent (s.intents id).status
    pub absent :
        (id : Text)
        → text_eq (s.intents id).user zero_address ≡ true
        → (s.intents id).status ≡ pending
    pub consumed :
        (id : Text) → IsThere (s.intents id) → s.tx_ref_consumed (s.intents id).tx_ref ≡ true
    pub unique :
        (id j : Text)
        → IsThere (s.intents id)
        → IsThere (s.intents j)
        → (s.intents id).tx_ref ≡ (s.intents j).tx_ref
        → id ≡ j
    pub limited : (day : ℕ) → s.daily_minted day ≤ daily_mint_limit

-- What a mapping holds at a key, after an assignment.
pub set_elim {ℓ κ} :
    {V : Type κ} (P : V → Type ℓ) (key k : Text) (value : V) (m : Text → V)
    → (key ≡ k → P value)
    → (text_eq key k ≡ false → P (m k))
    → P (set key value m k)
set_elim P key k value m at_key elsewhere = elim (Bool-cases (text_eq key k)) [
  | inl same ↦ rw same (at_key ((text_eq_iff key k).0 same))
  | inr other ↦ rw other (elsewhere other)
]

module _ (oz : OpenZeppelin) (s : EscrowState oz) (sound : IsSound oz s) (id : Text) where
  -- A new pending intent, with a fresh reference, where there was none.
  pub submitted-IsSound :
      (new : MintIntent) (t : EscrowState oz)
      → s.tx_ref_consumed new.tx_ref ≡ false
      → text_eq (s.intents id).user zero_address ≡ true
      → new.status ≡ pending
      → t.intents ≡ set id new s.intents
      → t.tx_ref_consumed ≡ set new.tx_ref true s.tx_ref_consumed
      → ((k : Text) → settlements k t.events ≡ settlements k s.events)
      → t.daily_minted ≡ s.daily_minted
      → IsSound oz t
  submitted-IsSound new t fresh free waiting intents consumed events daily = record {
    settled = λ k.
        events k
        ∙ rw intents (
            set_elim (λ i. settlements k s.events ≡ spent i.status) id k new s.intents
              (λ e.
                sound.settled k
                ∙ ap spent (
                    subst (λ j. (s.intents j).status ≡ pending) e (sound.absent id free)
                    ∙ sym waiting))
              (λ other. sound.settled k));
    absent = λ k. rw intents (
        set_elim (λ i. text_eq i.user zero_address ≡ true → i.status ≡ pending) id k new s.intents
          (λ e h. waiting) (λ other. sound.absent k));
    consumed = λ k.
        rw (intents, consumed)
          (set_elim (λ i. IsThere i → set new.tx_ref true s.tx_ref_consumed i.tx_ref ≡ true) id k
            new s.intents (λ e h. rw (text_eq_refl new.tx_ref))
            (λ other h.
              set_elim (λ b. b ≡ true) new.tx_ref (s.intents k).tx_ref true s.tx_ref_consumed
                (λ e. refl) (λ e. sound.consumed k h)));
    unique = λ k j. rw intents (
        set_elim
          (λ i.
            IsThere i
            → IsThere (set id new s.intents j)
            → i.tx_ref ≡ (set id new s.intents j).tx_ref
            → k ≡ j)
          id k new s.intents
          (λ e h.
            set_elim (λ i. IsThere i → new.tx_ref ≡ i.tx_ref → k ≡ j) id j new s.intents
              (λ e' h' same. sym e ∙ e') (λ other h' same. absurd (cc (sound.consumed j h'))))
          (λ other h.
            set_elim (λ i. IsThere i → (s.intents k).tx_ref ≡ i.tx_ref → k ≡ j) id j new s.intents
              (λ e' h' same. absurd (cc (sound.consumed k h)))
              (λ other' h' same. sound.unique k j h h' same)));
    limited = λ day. rw daily (sound.limited day);
  }

  -- A pending intent that is settled, with one event.
  pub settled-IsSound :
      (status : MintStatus) (t : EscrowState oz)
      → IsThere (s.intents id)
      → (s.intents id).status ≡ pending
      → spent status ≡ 1
      → t.intents ≡ set id (record (s.intents id) { status = status }) s.intents
      → t.tx_ref_consumed ≡ s.tx_ref_consumed
      → ((k : Text)
          → settlements k t.events ≡ (if text_eq id k then 1 else 0) + settlements k s.events)
      → ((day : ℕ) → t.daily_minted day ≤ daily_mint_limit)
      → IsSound oz t
  settled-IsSound status t there waiting final intents consumed events daily =
      let new = record (s.intents id) { status = status } in
      record {
        settled = λ k.
            events k
            ∙ rw intents (elim (Bool-cases (text_eq id k)) [
              | inl same ↦
                  let e = (text_eq_iff id k).0 same in
                  let none_yet =
                    sound.settled k
                    ∙ ap spent (subst (λ j. (s.intents j).status ≡ pending) e waiting) in
                  rw same (omega (arith, none_yet, final))
              | inr other ↦ rw other (omega (arith, sound.settled k))
            ]);
        absent = λ k. rw intents (
            set_elim (λ i. text_eq i.user zero_address ≡ true → i.status ≡ pending) id k new
              s.intents (λ e h. absurd (cc (there, h))) (λ other. sound.absent k));
        consumed = λ k.
            rw (intents, consumed)
              (set_elim (λ i. IsThere i → s.tx_ref_consumed i.tx_ref ≡ true) id k new s.intents
                (λ e. sound.consumed id) (λ other. sound.consumed k));
        unique = λ k j. rw intents (
            set_elim
              (λ i.
                IsThere i
                → IsThere (set id new s.intents j)
                → i.tx_ref ≡ (set id new s.intents j).tx_ref
                → k ≡ j)
              id k new s.intents
              (λ e h.
                set_elim (λ i. IsThere i → (s.intents id).tx_ref ≡ i.tx_ref → k ≡ j) id j new
                  s.intents (λ e' h' same. sym e ∙ e')
                  (λ other h' same. sym e ∙ sound.unique id j h h' same))
              (λ other h.
                set_elim (λ i. IsThere i → (s.intents k).tx_ref ≡ i.tx_ref → k ≡ j) id j new
                  s.intents (λ e' h' same. sound.unique k id h h' same ∙ e')
                  (λ other' h' same. sound.unique k j h h' same)));
        limited = daily;
      }
