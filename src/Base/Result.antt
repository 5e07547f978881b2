-- ===== src/Base/Result.antt =====
-- Go's pair of a value and an error, of which one is set. An error is its message.
use Prim.Native.Nat.{ℕ}
use mathlib.Core.List.{List}
use mathlib.Core.Path.{◌≡◌, refl, subst}
use mathlib.Core.Logic.{◌⊎◌, inl, inr}

pub data Result {ℓ} (A : Type ℓ) : Type ℓ where
  ok : A → Result A
  err : List ℕ → Result A

infixl 5 ◌>>=◌
abbrev pub ◌>>=◌ {ℓ κ} : {A : Type ℓ} {B : Type κ} → Result A → (A → Result B) → Result B
ok a >>= f = f a
err e >>= f = err e

pub Result-cases {ℓ} :
    {A : Type ℓ} (x : Result A) → ((e : List ℕ) × (x ≡ err e)) ⊎ ((a : A) × (x ≡ ok a))
Result-cases (ok a) = inr (a, refl)
Result-cases (err e) = inl (e, refl)

-- What holds of the value, if there is one.
abbrev pub AllOk {ℓ κ} : {A : Type ℓ} → (A → Type κ) → Result A → Type κ
AllOk P (ok a) = P a
AllOk P (err e) = Unit

pub AllOk-bind {ℓ κ ι} :
    {A : Type ℓ} {B : Type κ} (P : B → Type ι) (x : Result A) (f : A → Result B)
    → ((a : A) → x ≡ ok a → AllOk P (f a))
    → AllOk P (x >>= f)
AllOk-bind P (ok a) f h = h a refl
AllOk-bind P (err e) f h = tt

pub AllOk-ok {ℓ κ} :
    {A : Type ℓ} (P : A → Type κ) (x : Result A) (a : A) → AllOk P x → x ≡ ok a → P a
AllOk-ok P x a h e = subst (AllOk P) e h
