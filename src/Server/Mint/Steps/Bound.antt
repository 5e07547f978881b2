-- ===== src/Server/Mint/Steps/Bound.antt =====
-- How often mint requests that run at the same time call the escrow.
use railway.Base.{
  ℕ, zero, suc, ◌+◌, ◌≤◌, ◌≡◌, refl, arith, length, none, some, List, [], ◌∷◌, inl, inr, Bool-cases,
  Option-cases,
}
use railway.Base.Result.{ok, err}
use railway.Text.{codes, text_eq, is_empty}
use railway.Http.{Request}
use railway.Escrow.{SubmitIntentRequest}
use railway.Config.{ServiceConfig}
use railway.Server.Defs.{Parts, State, Readings, body_text}
use railway.Server.Mint.{mint_key, validate_mint_intent_request, submission}
use railway.Server.Mint.Steps.{Stage, arrived, looked_up, submitted, responded, mint_step}
use railway.Server.Interleave.{Handling, arrive, advance, interleave}

-- Whether a request may have called SubmitIntent.
abbrev spent : Stage → ℕ
spent arrived = 0
spent (looked_up found) = 0
spent (submitted result) = 1
spent (responded resp) = 1

abbrev total : List (Handling Stage) → ℕ
total [] = 0
total (h ∷ hs) = spent h.stage + total hs

spent_le : (stage : Stage) → spent stage ≤ 1
spent_le arrived = omega arith
spent_le (looked_up found) = omega arith
spent_le (submitted result) = omega arith
spent_le (responded resp) = omega arith

total_le : (hs : List (Handling Stage)) → total hs ≤ length hs
total_le [] = omega arith
total_le (h ∷ hs) = omega (arith, spent_le h.stage, total_le hs)

total-arrive : (requests : List (Readings × Request)) → total (arrive arrived requests) ≡ 0
total-arrive [] = refl
total-arrive ((now, r) ∷ rest) = omega (arith, total-arrive rest)

length-arrive :
    (requests : List (Readings × Request)) → length (arrive arrived requests) ≡ length requests
length-arrive [] = refl
length-arrive ((now, r) ∷ rest) = rw (length-arrive rest)

module _ (p : Parts) (cfg : ServiceConfig) where
  -- The chain after calls of SubmitIntent, the newest first.
  abbrev pub calls : List SubmitIntentRequest → p.client.Chain → p.client.Chain
  calls [] chain = chain
  calls (q ∷ qs) chain = (p.client.submit_intent q (calls qs chain)).1

  -- The second chain is the first after at most n calls of SubmitIntent, and nothing else.
  abbrev pub IsCalled : ℕ → p.client.Chain → p.client.Chain → Type 0
  IsCalled n before after =
      (qs : List SubmitIntentRequest) × (after ≡ calls qs before) × (length qs ≤ n)

  module _ (before : p.client.Chain) where
    IsCalled-le : (m n : ℕ) (c : p.client.Chain) → m ≤ n → IsCalled m before c → IsCalled n before c
    IsCalled-le m n c h (qs, e, bound) = (qs, e, omega arith)

    pub mint_step-IsCalled :
        (m : ℕ) (now : Readings) (r : Request) (stage : Stage) (s : State p)
        → IsCalled (spent stage + m) before s.chain
        → IsCalled
            (spent (mint_step p cfg now r stage s).0 + m)
            before
            (mint_step p cfg now r stage s).1.chain
    unfolding mint_step
    mint_step-IsCalled m now r arrived s made =
        elim (Bool-cases (text_eq r.method (codes "POST"))) [
          | inr other ↦ rw other (IsCalled-le _ _ s.chain (omega arith) made)
          | inl post ↦ elim (Bool-cases (is_empty (mint_key r))) [
            | inl empty ↦ rw (post, empty) (IsCalled-le _ _ s.chain (omega arith) made)
            | inr full ↦ rw (post, full) made
          ]
        ]
    mint_step-IsCalled m now r (looked_up (some rec)) s made =
        IsCalled-le _ _ s.chain (omega arith) made
    mint_step-IsCalled m now r (looked_up none) s (qs, e, bound) =
        elim (Option-cases (p.codec.decode_mint_intent (body_text r.body))) [
          | inl bad ↦ rw bad (qs, e, omega arith)
          | inr (payload, decoded) ↦ elim (Option-cases (validate_mint_intent_request payload)) [
            | inr (text, invalid) ↦ rw (decoded, invalid) (qs, e, omega arith)
            | inl valid ↦ rw (decoded, valid) (submission payload ∷ qs, rw e, omega arith)
          ]
        ]
    mint_step-IsCalled m now r (submitted (ok result)) s made = made
    mint_step-IsCalled m now r (submitted (err e)) s made = made
    mint_step-IsCalled m now r (responded resp) s made = made

    advance-IsCalled :
        (n m : ℕ) (hs : List (Handling Stage)) (s : State p)
        → IsCalled (total hs + m) before s.chain
        → IsCalled
            (total (advance (mint_step p cfg) n hs s).0 + m)
            before
            (advance (mint_step p cfg) n hs s).1.chain
    unfolding advance
    advance-IsCalled n m [] s made = made
    advance-IsCalled zero m (h ∷ hs) s made = IsCalled-le _ _ _ (omega arith) (
        mint_step-IsCalled (total hs + m) h.now h.request h.stage s
          (IsCalled-le _ _ _ (omega arith) made))
    advance-IsCalled (suc n) m (h ∷ hs) s made =
        IsCalled-le _ _ _ (omega arith)
          (advance-IsCalled n (spent h.stage + m) hs s (IsCalled-le _ _ _ (omega arith) made))

    interleave-IsCalled-total :
        (order : List ℕ) (hs : List (Handling Stage)) (s : State p)
        → IsCalled (total hs) before s.chain
        → IsCalled
            (total (interleave (mint_step p cfg) order (hs, s)).0)
            before
            (interleave (mint_step p cfg) order (hs, s)).1.chain
    unfolding interleave
    interleave-IsCalled-total [] hs s made = made
    interleave-IsCalled-total (n ∷ order) hs s made = interleave-IsCalled-total order _ _ (
        IsCalled-le _ _ _ (omega arith)
          (advance-IsCalled n 0 hs s (IsCalled-le _ _ _ (omega arith) made)))

  length-advance :
      (n : ℕ) (hs : List (Handling Stage)) (s : State p)
      → length (advance (mint_step p cfg) n hs s).0 ≡ length hs
  unfolding advance
  length-advance n [] s = refl
  length-advance zero (h ∷ hs) s = refl
  length-advance (suc n) (h ∷ hs) s = rw (length-advance n hs s)

  length-interleave :
      (order : List ℕ) (hs : List (Handling Stage)) (s : State p)
      → length (interleave (mint_step p cfg) order (hs, s)).0 ≡ length hs
  unfolding interleave
  length-interleave [] hs s = refl
  length-interleave (n ∷ order) hs s = omega (
    arith,
    length-interleave order (advance (mint_step p cfg) n hs s).0
        (advance (mint_step p cfg) n hs s).1,
    length-advance n hs s,
  )

  -- Mint requests run at the same time, their steps in whatever order: the chain has been called
  -- at most as often as there are requests, and by SubmitIntent only.
  pub interleave-IsCalled :
      (order : List ℕ) (requests : List (Readings × Request)) (s : State p)
      → IsCalled
          (length requests)
          s.chain
          (interleave (mint_step p cfg) order (arrive arrived requests, s)).1.chain
  interleave-IsCalled order requests s =
      let ended = (interleave (mint_step p cfg) order (arrive arrived requests, s)).0 in
      IsCalled-le s.chain (total ended) (length requests) _
        (omega (
          arith,
          total_le ended,
          length-interleave order (arrive arrived requests) s,
          length-arrive requests,
        ))
        (interleave-IsCalled-total s.chain order (arrive arrived requests) s
          ([], refl, omega arith))
