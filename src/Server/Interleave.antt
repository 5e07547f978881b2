-- ===== src/Server/Interleave.antt =====
-- Requests that are handled at the same time: their steps in some order, on one state.
use railway.Base.{ℕ, zero, suc, List, [], ◌∷◌}
use railway.Http.{Request}
use railway.Server.Defs.{Readings}

-- A request on its way through a handler, and how far it has come.
pub record Handling (Stage : Type 0) : Type 0 where
  pub now : Readings
  pub request : Request
  pub stage : Stage

-- Requests that come in, at a first stage.
abbrev pub arrive : {Stage : Type 0} → Stage → List (Readings × Request) → List (Handling Stage)
arrive first [] = []
arrive first ((now, r) ∷ rest) =
    record { now = now; request = r; stage = first } ∷ arrive first rest

module _ {Stage S : Type 0} (step : Readings → Request → Stage → S → Stage × S) where
  -- The n-th request makes a step.
  unfoldable pub advance : ℕ → List (Handling Stage) → S → List (Handling Stage) × S
  advance n [] s = ([], s)
  advance zero (h ∷ hs) s =
      let (stage, next) = step h.now h.request h.stage s in (record h { stage = stage } ∷ hs, next)
  advance (suc n) (h ∷ hs) s = let (rest, next) = advance n hs s in (h ∷ rest, next)

  -- The requests and the state after the steps of an order.
  unfoldable pub interleave : List ℕ → List (Handling Stage) × S → List (Handling Stage) × S
  interleave [] t = t
  interleave (n ∷ order) t = interleave order (advance n t.0 t.1)

-- Orders that begin with the lookup and the submission of request 0, and the lookup of request 1 in
-- between or after that; the second index is the rest of the order.
pub data IsLead : List ℕ → List ℕ → Type 0 where
  looks_up_after : (rest : List ℕ) → IsLead (0 ∷ 0 ∷ 1 ∷ rest) rest
  looks_up_between : (rest : List ℕ) → IsLead (0 ∷ 1 ∷ 0 ∷ rest) rest

-- Request 1 submits and saves, and request 0 saves before, in between or after that.
pub data IsRest : List ℕ → Type 0 where
  saves_before : IsRest (0 ∷ 1 ∷ 1 ∷ [])
  saves_between : IsRest (1 ∷ 0 ∷ 1 ∷ [])
  saves_after : IsRest (1 ∷ 1 ∷ 0 ∷ [])
