-- ===== src/Server/Mint/Accounted.antt =====
-- The account of a mint request.
use railway.Base.{◌≡◌, refl, Option, none, some, true, false, [], ◌∷◌, inl, inr, Bool-cases}
use railway.Base.Result.{Result-cases}
use railway.Text.{Text, codes, text_eq, is_empty}
use railway.Http.{Request}
use railway.Idempotency.{Record}
use railway.Config.{ServiceConfig}
use railway.Server.Defs.{MintIntentRequest, inc_mint, Parts, State, Readings}
use railway.Server.Mint.{
  mint_key, submission, submit_valid, submit_decoded, mint_after_lookup, handle_mint_intents,
  validate_mint_intent_request,
}
use railway.Server.Accounts.{submits, IsAccounted, unchanged, followed, noted}

created-ne-cached : text_eq (codes "created") (codes "cached") ≡ false
unfolding codes text_eq
created-ne-cached = refl

failed-ne-cached : text_eq (codes "failed") (codes "cached") ≡ false
unfolding codes text_eq
failed-ne-cached = refl

cached-eq-cached : text_eq (codes "cached") (codes "cached") ≡ true
unfolding codes text_eq
cached-eq-cached = refl

module _ (p : Parts) (cfg : ServiceConfig) where
  submit_valid-IsAccounted :
      (now : Readings) (key : Text) (payload : MintIntentRequest) (invalid : Option Text)
      (s : State p)
      → IsAccounted p s (submit_valid p cfg now key payload invalid s).1
  submit_valid-IsAccounted now key payload (some e) s = unchanged p s s refl refl
  submit_valid-IsAccounted now key payload none s =
      elim (Result-cases (p.client.submit_intent (submission payload) s.chain).0) [
        | inl (e, bad) ↦ rw bad (record {
          calls = submits (submission payload) ∷ [];
          counted = inc_mint (codes "failed") ∷ [];
          chain_eq = refl;
          metrics_eq = refl;
          submits_eq = rw failed-ne-cached;
          executes_eq = refl;
        })
        | inr (result, good) ↦ rw good (record {
          calls = submits (submission payload) ∷ [];
          counted = inc_mint (codes "created") ∷ [];
          chain_eq = refl;
          metrics_eq = refl;
          submits_eq = rw created-ne-cached;
          executes_eq = refl;
        })
      ]

  submit_decoded-IsAccounted :
      (now : Readings) (key : Text) (decoded : Option MintIntentRequest) (s : State p)
      → IsAccounted p s (submit_decoded p cfg now key decoded s).1
  submit_decoded-IsAccounted now key none s = unchanged p s s refl refl
  submit_decoded-IsAccounted now key (some payload) s =
      submit_valid-IsAccounted now key payload (validate_mint_intent_request payload) s

  mint_after_lookup-IsAccounted :
      (now : Readings) (key : Text) (r : Request) (found : Option Record) (s : State p)
      → IsAccounted p s (mint_after_lookup p cfg now key r found s).1
  unfolding mint_after_lookup
  mint_after_lookup-IsAccounted now key r (some rec) s =
      noted p (inc_mint (codes "cached")) s (rw cached-eq-cached) refl
  mint_after_lookup-IsAccounted now key r none s = submit_decoded-IsAccounted now key _ s

  pub handle_mint_intents-IsAccounted :
      (now : Readings) (r : Request) (s : State p)
      → IsAccounted p s (handle_mint_intents p cfg now r s).1
  unfolding handle_mint_intents
  handle_mint_intents-IsAccounted now r s = elim (Bool-cases (text_eq r.method (codes "POST"))) [
    | inr other ↦ rw other (unchanged p s s refl refl)
    | inl post ↦ elim (Bool-cases (is_empty (mint_key r))) [
      | inl empty ↦ rw (post, empty) (unchanged p s s refl refl)
      | inr full ↦
          rw (post, full)
            (followed p s (record s { records = (p.store.get now.lookup (mint_key r) s.records).1 })
              _ (unchanged p _ _ refl refl) (mint_after_lookup-IsAccounted now (mint_key r) r _ _))
    ]
  ]
