-- ===== src/Config/Env/Laws.antt =====
-- Which values of a variable envOrInt reads.
use railway.Base.{
  ℕ, zero, suc, ◌+◌, ◌/◌, ◌%◌, ◌^◌, ◌<◌, ◌≡◌, refl, ◌∙◌, ap, sym, [], ◌∷◌, ◌++◌, true, false, some,
  arith, Bool-cases, inl, inr, ltb,
}
use railway.Base.Int.{ℤ, pos, negsuc}
use railway.Text.{Text, is_digit, digits_value, in_int64, map_value, is_space_1}
use railway.Text.Print.{print_from, print_int}
use railway.Text.PrintLaws.{digits_value-print_from, print_from-append, print_from-digit}
use railway.Config.Env.{
  Environment, skip_space, leading_digits, scan_digits, scan_signed, sscanf_d, scanned, or_fallback,
  env_or_int,
}

-- A text that does not go on with a digit.
abbrev pub NoDigit : Text → Type 0
NoDigit [] = Unit
NoDigit (c ∷ s) = is_digit c ≡ false

leading_digits-NoDigit : (s : Text) → NoDigit s → leading_digits s ≡ []
unfolding leading_digits
leading_digits-NoDigit [] h = refl
leading_digits-NoDigit (c ∷ s) h = rw h

leading_digits-digit :
    (c : ℕ) (s : Text) → is_digit c ≡ true → leading_digits (c ∷ s) ≡ c ∷ leading_digits s
unfolding leading_digits
leading_digits-digit c s h = rw h

digit : (d : ℕ) → d < 10 → is_digit (b'0' + d) ≡ true
unfolding is_digit
digit d h = ground arith

leading_digits-print_from :
    (fuel n : ℕ) (acc : Text)
    → leading_digits (print_from fuel n acc) ≡ print_from fuel n (leading_digits acc)
unfolding print_from
leading_digits-print_from zero n acc = refl
leading_digits-print_from (suc fuel) n acc = elim (Bool-cases (ltb n 10)) [
  | inl small ↦ rw small (leading_digits-digit (b'0' + n) acc (digit n (ground arith)))
  | inr big ↦ rw big (
      leading_digits-print_from fuel (n / 10) _
      ∙ ap (print_from fuel (n / 10))
          (leading_digits-digit (b'0' + n % 10) acc (digit (n % 10) (omega arith))))
]

-- A number's digits before a text that does not go on with one are read as the number.
scan_digits-print_from :
    (n : ℕ) (s : Text)
    → n < 10 ^ 19
    → NoDigit s
    → scan_digits (leading_digits (print_from 19 n s)) ≡ some n
unfolding digits_value
scan_digits-print_from n s h none_left =
    let (c, t, e, _) = print_from-digit 19 n [] (omega arith) h in
    rw (leading_digits-print_from 19 n s, leading_digits-NoDigit s none_left, e)
      (sym (ap (digits_value 0) e) ∙ digits_value-print_from 19 n [] h (omega arith))

skip_space-solid :
    (c : ℕ) (s : Text) → is_space_1 c ≡ false → ltb c 128 ≡ true → skip_space (c ∷ s) ≡ some (c ∷ s)
unfolding skip_space
skip_space-solid c [] h k = ground arith
skip_space-solid c (d ∷ []) h k = ground arith
skip_space-solid c (d ∷ e ∷ s) h k = ground arith

solid-digit : (c : ℕ) → is_digit c ≡ true → (is_space_1 c ≡ false) × (ltb c 128 ≡ true)
unfolding is_digit is_space_1
solid-digit c h = ground arith

scan_signed-digit :
    (c : ℕ) (t : Text)
    → is_digit c ≡ true
    → scan_signed (c ∷ t) ≡ map_value pos (scan_digits (leading_digits (c ∷ t)))
unfolding is_digit
scan_signed-digit c t h = ground arith

sscanf_d-pos :
    (n : ℕ) (s : Text) → n < 2 ^ 63 → NoDigit s → sscanf_d (print_from 19 n s) ≡ some (pos n)
unfolding sscanf_d
sscanf_d-pos n s h none_left =
    let (c, t, e, d) = print_from-digit 19 n s (omega arith) (omega arith) in
    let scanned =
      ap (λ u. scan_digits (leading_digits u)) (sym e)
      ∙ scan_digits-print_from n s (omega arith) none_left in
    rw
      (
        e,
        skip_space-solid c t (solid-digit c d).0 (solid-digit c d).1,
        scan_signed-digit c t d,
        scanned,
      )
      (ground arith)

sscanf_d-negsuc :
    (n : ℕ) (s : Text)
    → n < 2 ^ 63
    → NoDigit s
    → sscanf_d (b'-' ∷ print_from 19 (suc n) s) ≡ some (negsuc n)
unfolding sscanf_d is_space_1
sscanf_d-negsuc n s h none_left =
    let scanned = scan_digits-print_from (suc n) s (omega arith) none_left in
    rw (skip_space-solid b'-' (print_from 19 (suc n) s) refl refl, scanned) (ground arith)

-- An empty value gives the fallback, as a value that is no number does.
scanned-some :
    (fallback : ℤ) (s : Text) → scanned fallback (some s) ≡ or_fallback fallback (sscanf_d s)
unfolding sscanf_d skip_space
scanned-some fallback [] = refl
scanned-some fallback (c ∷ s) = refl

-- A variable that holds the decimal form of an int64, followed by any text that does not go on with a
-- digit, has that value: "60s" is read as 60.
pub env_or_int-print_int :
    (env : Environment) (key : Text) (fallback z : ℤ) (rest : Text)
    → in_int64 z ≡ true
    → NoDigit rest
    → env key ≡ some (print_int z ++ rest)
    → env_or_int env key fallback ≡ z
unfolding env_or_int print_int
env_or_int-print_int env key fallback (pos n) rest h none_left e =
    ap (scanned fallback) (e ∙ ap some (print_from-append 19 n [] rest))
    ∙ scanned-some fallback (print_from 19 n rest)
    ∙ ap (or_fallback fallback) (sscanf_d-pos n rest (ground arith) none_left)
env_or_int-print_int env key fallback (negsuc n) rest h none_left e =
    ap (scanned fallback) (e ∙ ap (λ t. some (b'-' ∷ t)) (print_from-append 19 (suc n) [] rest))
    ∙ scanned-some fallback (b'-' ∷ print_from 19 (suc n) rest)
    ∙ ap (or_fallback fallback) (sscanf_d-negsuc n rest (ground arith) none_left)
