-- ===== src/Server/Mint/Kept.antt =====
-- What a mint request keeps of the store.
use railway.Base.{Option, none, some, inl, inr, Bool-cases}
use railway.Base.Result.{Result, ok, err}
use railway.Text.{Text, codes, text_eq, is_empty}
use railway.Http.{Request}
use railway.Idempotency.{Record}
use railway.Escrow.{SubmitIntentResponse}
use railway.Config.{ServiceConfig}
use railway.Server.Defs.{MintIntentRequest, Parts, State, Readings}
use railway.Server.Kept.{IsKept}
use railway.Server.Mint.{
  mint_key, respond_mint, submit_valid, submit_decoded, mint_after_lookup, handle_mint_intents,
}

module _ {κ} (p : Parts) (cfg : ServiceConfig) (K : Text → Type 0) (P : p.store.State → Type κ)
    (now : Readings) (kept : IsKept p cfg K P now) where
  respond_mint_keeps :
      (key : Text) (result : Result SubmitIntentResponse) (s : State p)
      → K key
      → P s.records
      → P (respond_mint p cfg now key result s).1.records
  respond_mint_keeps key (err e) s named h = h
  respond_mint_keeps key (ok result) s named h = kept.save_keeps key 201 _ s.records named h

  submit_valid_keeps :
      (key : Text) (payload : MintIntentRequest) (invalid : Option Text) (s : State p)
      → K key
      → P s.records
      → P (submit_valid p cfg now key payload invalid s).1.records
  submit_valid_keeps key payload (some e) s named h = h
  submit_valid_keeps key payload none s named h = respond_mint_keeps key _ _ named h

  submit_decoded_keeps :
      (key : Text) (decoded : Option MintIntentRequest) (s : State p)
      → K key
      → P s.records
      → P (submit_decoded p cfg now key decoded s).1.records
  submit_decoded_keeps key none s named h = h
  submit_decoded_keeps key (some payload) s named h = submit_valid_keeps key payload _ s named h

  mint_after_lookup_keeps :
      (key : Text) (r : Request) (found : Option Record) (s : State p)
      → K key
      → P s.records
      → P (mint_after_lookup p cfg now key r found s).1.records
  unfolding mint_after_lookup
  mint_after_lookup_keeps key r (some rec) s named h = h
  mint_after_lookup_keeps key r none s named h = submit_decoded_keeps key _ s named h

  pub handle_mint_intents_keeps :
      (r : Request) (s : State p)
      → K (mint_key r)
      → P s.records
      → P (handle_mint_intents p cfg now r s).1.records
  unfolding handle_mint_intents
  handle_mint_intents_keeps r s named h = elim (Bool-cases (text_eq r.method (codes "POST"))) [
    | inr other ↦ rw other h
    | inl post ↦ elim (Bool-cases (is_empty (mint_key r))) [
      | inl empty ↦ rw (post, empty) h
      | inr full ↦
          rw (post, full)
            (mint_after_lookup_keeps (mint_key r) r _ _ named
              (kept.get_keeps (mint_key r) s.records h))
    ]
  ]
