-- ===== src/Server/Mint/Steps/Laws.antt =====
-- The steps of a mint request, taken one after the other, are the handler.
use railway.Base.{◌≡◌, Option, none, some, refl, inl, inr, Bool-cases, Option-cases}
use railway.Text.{codes, text_eq, is_empty}
use railway.Http.{Request}
use railway.Idempotency.{Record}
use railway.Config.{ServiceConfig}
use railway.Server.Defs.{Parts, State, Readings, body_text}
use railway.Server.Mint.{
  mint_key, mint_after_lookup, handle_mint_intents, validate_mint_intent_request,
}
use railway.Server.Mint.Steps.{Stage, arrived, looked_up, responded, mint_step}

module _ (p : Parts) (cfg : ServiceConfig) (now : Readings) (r : Request) where
  abbrev step : Stage × State p → Stage × State p
  step t = mint_step p cfg now r t.0 t.1

  steps-after_lookup :
      (found : Option Record) (s : State p)
      → step (step (looked_up found, s)) ≡ (
        responded (mint_after_lookup p cfg now (mint_key r) r found s).0,
        (mint_after_lookup p cfg now (mint_key r) r found s).1,
      )
  unfolding mint_step mint_after_lookup
  steps-after_lookup (some rec) s = refl
  steps-after_lookup none s = elim (Option-cases (p.codec.decode_mint_intent (body_text r.body))) [
    | inl bad ↦ rw bad
    | inr (payload, decoded) ↦ elim (Option-cases (validate_mint_intent_request payload)) [
      | inl valid ↦ rw (decoded, valid)
      | inr (e, invalid) ↦ rw (decoded, invalid)
    ]
  ]

  -- A request that no other interrupts has responded after three steps, with the response of the
  -- handler, and leaves the state that the handler leaves.
  pub mint_step-handle_mint_intents :
      (s : State p)
      → step (step (step (arrived, s)))
        ≡ (responded (handle_mint_intents p cfg now r s).0, (handle_mint_intents p cfg now r s).1)
  unfolding mint_step handle_mint_intents
  mint_step-handle_mint_intents s = elim (Bool-cases (text_eq r.method (codes "POST"))) [
    | inr other ↦ rw other
    | inl post ↦ elim (Bool-cases (is_empty (mint_key r))) [
      | inl empty ↦ rw (post, empty)
      | inr full ↦ rw (post, full) (steps-after_lookup _ _)
    ]
  ]
