-- ===== src/Text/PrintLaws.antt =====
-- What the decimal form of a number is read as.
use railway.Base.{
  ℕ, zero, suc, ◌+◌, ◌-◌, ◌*◌, ◌/◌, ◌%◌, ◌^◌, ◌<◌, ◌≡◌, refl, ◌∙◌, ap, ◌∷◌, ◌++◌, true, false,
  arith, Bool-cases, inl, inr, ltb,
}
use railway.Text.Defs.{Text, is_digit, digits_value}
use railway.Text.Print.{print_from}
use native.Mathlib.Nat.{pow-suc}

digit_step :
    (a d : ℕ) (s : Text) → d < 10 → digits_value a ((b'0' + d) ∷ s) ≡ digits_value (a * 10 + d) s
unfolding digits_value is_digit
digit_step a d s h =
    let e : b'0' + d - b'0' ≡ d = omega arith in
    let digit : is_digit (b'0' + d) ≡ true = ground arith in rw (digit, e)

tenth_bound : (fuel n : ℕ) → n < 10 ^ suc fuel → n / 10 < 10 ^ fuel
tenth_bound fuel n h = let e : 10 ^ suc fuel ≡ 10 ^ fuel * 10 = pow-suc 10 fuel in omega (arith, e)

fuel_left : (fuel n : ℕ) → n < 10 ^ suc fuel → ltb n 10 ≡ false → 0 < fuel
fuel_left zero n h big = absurd (ground arith)
fuel_left (suc fuel) n h big = omega arith

is_digit-add : (d : ℕ) → d < 10 → is_digit (b'0' + d) ≡ true
unfolding is_digit
is_digit-add d h = ground arith

-- The digits of a number stand for it, whatever follows them.
pub digits_value-print_from :
    (fuel n : ℕ) (acc : Text)
    → n < 10 ^ fuel
    → 0 < fuel
    → digits_value 0 (print_from fuel n acc) ≡ digits_value n acc
unfolding print_from
digits_value-print_from zero n acc h k = absurd (omega arith)
digits_value-print_from (suc fuel) n acc h k = elim (Bool-cases (ltb n 10)) [
  | inl small ↦
      rw small (digit_step 0 n acc (ground arith) ∙ ap (λ m. digits_value m acc) (omega arith))
  | inr big ↦ rw big (
      digits_value-print_from fuel (n / 10) _ (tenth_bound fuel n h) (fuel_left fuel n h big)
      ∙ digit_step (n / 10) (n % 10) acc (omega arith)
      ∙ ap (λ m. digits_value m acc) (omega arith))
]

-- Text after the digits stays after them.
pub print_from-append :
    (fuel n : ℕ) (acc s : Text) → print_from fuel n acc ++ s ≡ print_from fuel n (acc ++ s)
unfolding print_from
print_from-append zero n acc s = refl
print_from-append (suc fuel) n acc s = elim (Bool-cases (ltb n 10)) [
  | inl small ↦ rw small
  | inr big ↦ rw big (print_from-append fuel (n / 10) _ s)
]

-- The first byte is a digit.
pub print_from-digit :
    (fuel n : ℕ) (acc : Text)
    → 0 < fuel
    → n < 10 ^ fuel
    → (c : ℕ) × (s : Text) × (print_from fuel n acc ≡ c ∷ s) × (is_digit c ≡ true)
unfolding print_from
print_from-digit zero n acc k h = absurd (omega arith)
print_from-digit (suc fuel) n acc k h = elim (Bool-cases (ltb n 10)) [
  | inl small ↦ (b'0' + n, acc, rw small, is_digit-add n (ground arith))
  | inr big ↦
      let (c, s, e, digit) =
        print_from-digit fuel (n / 10) ((b'0' + n % 10) ∷ acc) (fuel_left fuel n h big)
          (tenth_bound fuel n h) in
      (c, s, rw big e, digit)
]
