-- ===== src/Server/Records.antt =====
-- A record that a lawful store holds, under the lookups and saves of the handlers.
use railway.Base.{◌≡◌, Option, none, some, false, Bool-cases, inl, inr, arith, ◌∙◌, ap, sym}
use railway.Base.Int.{ℤ, ◌≤ℤ◌}
use railway.Base.Result.{ok}
use railway.Text.{Text, text_eq, text_eq_refl, text_eq_iff}
use railway.Idempotency.{Record, live, Store, IsLawful}
use railway.Server.Defs.{existing}

live_of_le : (t : ℤ) (rec : Record) → t ≤ℤ rec.expires_at → live t (some rec) ≡ some rec
live_of_le t rec h = ground arith

of_live : (t : ℤ) (o : Option Record) {rec : Record} → live t o ≡ some rec → o ≡ some rec
of_live t o e = ground arith

ok_inj : {A : Type 0} (a b : A) → ok a ≡ ok b → a ≡ b
ok_inj a b e = cc

module _ {S : Store} (lawful : IsLawful S) where
  -- The store holds `rec` under `k`.
  abbrev pub Holds : Text → Record → S.State → Type 0
  Holds k rec s = lawful.view s k ≡ some rec

  -- A lookup, of any key, before the end of the record keeps it.
  pub get-Holds :
      (t : ℤ) (j k : Text) (rec : Record) (s : S.State)
      → t ≤ℤ rec.expires_at
      → Holds k rec s
      → Holds k rec (S.get t j s).1
  get-Holds t j k rec s h held = of_live rec.expires_at _ (
      lawful.live-get t rec.expires_at j k s h
      ∙ ap (live rec.expires_at) held
      ∙ live_of_le rec.expires_at rec (omega arith))

  -- Its key is found.
  pub existing-get :
      (t : ℤ) (k : Text) (rec : Record) (s : S.State)
      → t ≤ℤ rec.expires_at
      → Holds k rec s
      → existing (S.get t k s).0 ≡ some rec
  existing-get t k rec s h held =
      ap existing (lawful.get-live t k s) ∙ ap (live t) held ∙ live_of_le t rec h

  -- A lookup that finds nothing was for another key.
  pub missed-ne :
      (t : ℤ) (key k : Text) (rec : Record) (s : S.State)
      → t ≤ℤ rec.expires_at
      → Holds k rec s
      → existing (S.get t key s).0 ≡ none
      → text_eq key k ≡ false
  missed-ne t key k rec s h held missed = elim (Bool-cases (text_eq key k)) [
    | inl same ↦
        let found = existing-get t k rec s h held in
        absurd (ground (arith, text_eq_iff key k, found, missed))
    | inr other ↦ other
  ]

  -- A save under another key keeps it, and a save under its key replaces it.
  pub save-Holds :
      (j k : Text) (rec other : Record) (s : S.State)
      → text_eq j k ≡ false
      → Holds k rec s
      → Holds k rec (S.save j other s).1
  save-Holds j k rec other s ne held = ground (arith, lawful.view-save j k other s)

  pub save-Holds_self : (k : Text) (rec : Record) (s : S.State) → Holds k rec (S.save k rec s).1
  save-Holds_self k rec s = ground (arith, lawful.view-save k k rec s, text_eq_refl k)

  -- What a lookup finds is what the view shows at its time.
  pub existing-live :
      (t : ℤ) (k : Text) (s : S.State) → existing (S.get t k s).0 ≡ live t (lawful.view s k)
  existing-live t k s = ap existing (lawful.get-live t k s)

  -- What a lookup shows at one time before the end of a record, it shows of the record.
  pub Holds-of_get :
      (t : ℤ) (k : Text) (rec : Record) (s : S.State)
      → (S.get t k s).0 ≡ ok (some rec)
      → Holds k rec s
  Holds-of_get t k rec s e = of_live t _ (ok_inj _ _ (sym (lawful.get-live t k s) ∙ e))

  pub get-of_Holds :
      (t : ℤ) (k : Text) (rec : Record) (s : S.State)
      → t ≤ℤ rec.expires_at
      → Holds k rec s
      → (S.get t k s).0 ≡ ok (some rec)
  get-of_Holds t k rec s h held =
      lawful.get-live t k s ∙ ap (λ o. ok (live t o)) held ∙ ap ok (live_of_le t rec h)
