-- ===== src/Server/Health/Laws.antt =====
-- When the health endpoint reports a healthy service.
use railway.Base.{
  ℕ, ◌≡◌, ◌≢◌, refl, ◌↔◌, ◌⊎◌, inl, inr, ◌∷◌, Bool, true, ◌&&◌, Option, none, some, arith,
  if◌then◌else◌, Bool-cases,
}
use railway.Base.Result.{Result, ok, err}
use railway.Text.{Text}
use railway.Config.{ServiceConfig}
use railway.Http.{json_response}
use railway.Server.Defs.{Parts, State, set_dlq_depth}
use railway.Server.Dlq.{current_dlq_depth, update_dlq_depth}
use railway.Server.Health.{Checks, HealthReply, is_healthy, handle_health}

-- A check that is not there, or that reports no error.
abbrev pub Passes : Option (Result (Unit {0})) → Type 0
Passes check = (e : Text) → check ≢ some (err e)

is_healthy-Passes : (check : Option (Result (Unit {0}))) → (is_healthy check ≡ true) ↔ Passes check
is_healthy-Passes none = (λ _ e h. cc, λ _. refl)
is_healthy-Passes (some (ok u)) = (λ _ e h. cc, λ _. refl)
is_healthy-Passes (some (err e)) = (λ h. cc, λ h. absurd (h e refl))

both : (a b : Bool) → ((a && b) ≡ true) ↔ ((a ≡ true) × (b ≡ true))
both a b = ground arith

status-200 : (b : Bool) → ◌≡◌ {A = ℕ} (if b then 200 else 503) 200 ↔ (b ≡ true)
status-200 b = ground arith

module _ (p : Parts) (cfg : ServiceConfig) (encode : HealthReply → Text) where
  -- The endpoint answers 200 exactly when neither the RPC check nor the database check reports an
  -- error, and 503 otherwise; it sets the gauge to the depth of the queue, and changes nothing else.
  pub handle_health_lem :
      (checks : Checks) (s : State p)
      → (((handle_health p cfg encode checks s).0.status ≡ 200)
          ↔ (Passes checks.rpc × Passes checks.database))
        × (((handle_health p cfg encode checks s).0.status ≡ 200)
            ⊎ ((handle_health p cfg encode checks s).0.status ≡ 503))
        × ((handle_health p cfg encode checks s).1
            ≡ record s { metrics = set_dlq_depth (current_dlq_depth p cfg s) ∷ s.metrics })
  unfolding handle_health update_dlq_depth json_response
  handle_health_lem checks s =
      let ok_iff = status-200 (is_healthy checks.rpc && is_healthy checks.database) in
      let and_iff = both (is_healthy checks.rpc) (is_healthy checks.database) in
      let rpc = is_healthy-Passes checks.rpc in
      let db = is_healthy-Passes checks.database in
      (
        (
          (λ h. (rpc.0 (and_iff.0 (ok_iff.0 h)).0, db.0 (and_iff.0 (ok_iff.0 h)).1)),
          (λ (h : Passes checks.rpc × Passes checks.database).
              ok_iff.1 (and_iff.1 (rpc.1 h.0, db.1 h.1))),
        ),
        elim (Bool-cases (is_healthy checks.rpc && is_healthy checks.database)) [
          | inl e ↦ inl (rw e)
          | inr e ↦ inr (rw e)
        ],
        refl,
      )
