-- ===== src/Server/Retry/Backoff.antt =====
-- How long the retry loop waits.
use Prim.Native.Nat.{min}
use native.Mathlib.Nat.{pow-suc, pow-zero, pow-le-pow_right, mul_assoc}
use railway.Base.{
  ℕ, zero, suc, ◌+◌, ◌-◌, ◌*◌, ◌^◌, ◌≤◌, ◌<◌, ◌≡◌, refl, List, ◌∷◌, arith, ap, sym, subst, ◌∙◌,
}
use railway.Base.Int.{ℤ, pos, negsuc, mul64, mul64-pos, wrap64, pos_part, ◌*ℤ◌}
use railway.Config.{RetryConfig}
use railway.Server.Retry.{backoff_of, sleep_of, next_backoff}
use railway.Server.Retry.Laws.{sleeps}

-- The documented formula: the wait after attempt j + 1.
abbrev pub formula : ℕ → ℕ → ℕ → ℕ → ℤ
formula initial multiplier most j = pos (min (initial * multiplier ^ j) most)

-- The first k waits by the formula after the j-th, the newest first.
abbrev pub formula_waits : ℕ → ℕ → ℕ → ℕ → ℕ → List ℤ → List ℤ
formula_waits initial multiplier most j zero acc = acc
formula_waits initial multiplier most j (suc k) acc =
    formula_waits initial multiplier most (suc j) k (formula initial multiplier most j ∷ acc)

module _ (cfg : RetryConfig) (initial multiplier most : ℕ)
    (initial_eq : cfg.initial_backoff ≡ pos initial)
    (multiplier_eq : cfg.backoff_multiplier ≡ pos multiplier) (most_eq : cfg.max_backoff ≡ pos most)
    (initial_pos : 0 < initial) (multiplier_gt : 1 < multiplier) (most_pos : 0 < most) where
  sleep_of-pos : (b : ℕ) → sleep_of cfg (pos b) ≡ pos (min b most)
  unfolding sleep_of
  sleep_of-pos b = ground arith

  next_backoff-pos :
      (b : ℕ) → b * multiplier < 2 ^ 63 → next_backoff cfg (pos b) ≡ pos (b * multiplier)
  unfolding next_backoff
  next_backoff-pos b h = ground (arith, mul64-pos b multiplier h)

  backoff_of-initial : backoff_of cfg ≡ pos (initial * multiplier ^ 0)
  backoff_of-initial = ground (arith, pow-zero multiplier)

  pow_step : (j : ℕ) → initial * multiplier ^ j * multiplier ≡ initial * multiplier ^ suc j
  pow_step j =
      mul_assoc initial (multiplier ^ j) multiplier
      ∙ ap (λ t. initial * t) (sym (pow-suc multiplier j))

  pow_bound : (j k : ℕ) → initial * multiplier ^ suc j ≤ initial * multiplier ^ (j + suc k)
  pow_bound j k =
      let le : multiplier ^ suc j ≤ multiplier ^ (j + suc k) =
        pow-le-pow_right (omega arith) (omega arith) in
      grind arith

  next_of_bound :
      (j k : ℕ)
      → initial * multiplier ^ (j + suc k) < 2 ^ 63
      → next_backoff cfg (pos (initial * multiplier ^ j)) ≡ pos (initial * multiplier ^ suc j)
  next_of_bound j k h =
      next_backoff-pos (initial * multiplier ^ j) (omega (arith, pow_step j, pow_bound j k))
      ∙ ap pos (pow_step j)

  sleeps-from :
      (k j : ℕ) (acc : List ℤ)
      → initial * multiplier ^ (j + k) < 2 ^ 63
      → sleeps cfg k (pos (initial * multiplier ^ j)) acc
        ≡ formula_waits initial multiplier most j k acc
  sleeps-from zero j acc h = refl
  sleeps-from (suc k) j acc h =
      rw (next_of_bound j k h, sleep_of-pos (initial * multiplier ^ j))
        (sleeps-from k (suc j) _ (subst (λ e. initial * multiplier ^ e < 2 ^ 63) (omega arith) h))

  -- As long as the products stay below 2^63 nanoseconds, the k waits are those of the documented
  -- formula, min(initialBackoff * multiplier^(attempt-1), maxBackoff).
  pub sleeps-eq-formula :
      (k : ℕ) (acc : List ℤ)
      → initial * multiplier ^ k < 2 ^ 63
      → sleeps cfg k (backoff_of cfg) acc ≡ formula_waits initial multiplier most 0 k acc
  sleeps-eq-formula k acc h =
      rw (backoff_of-initial)
        (sleeps-from k 0 acc (subst (λ e. initial * multiplier ^ e < 2 ^ 63) (omega arith) h))

-- A product of 2^63 or more that is below 2^64 nanoseconds is taken for a negative Duration: the next
-- wait is over at once, where the formula asks for the greatest backoff.
pub sleep_of-next_backoff_overflow :
    (cfg : RetryConfig) (b multiplier : ℕ)
    → cfg.backoff_multiplier ≡ pos multiplier
    → 1 < multiplier
    → 2 ^ 63 ≤ b * multiplier
    → b * multiplier < 2 ^ 64
    → 0 < pos_part cfg.max_backoff
    → sleep_of cfg (next_backoff cfg (pos b)) ≡ negsuc (2 ^ 64 - 1 - b * multiplier)
unfolding sleep_of next_backoff mul64 wrap64 ◌*ℤ◌
sleep_of-next_backoff_overflow cfg b multiplier e m h k most = ground arith
