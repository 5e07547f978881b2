-- ===== src/Text/Lacks.antt =====
-- Texts in which a byte does not stand.
use railway.Base.{
  ℕ, zero, suc, ◌+◌, ◌/◌, ◌%◌, ◌^◌, ◌<◌, ltb, ◌==◌, true, false, some, ◌≡◌, refl, ◌∙◌, ap, sym, [],
  ◌∷◌, ◌++◌, arith, Bool-cases, inl, inr,
}
use railway.Text.Defs.{Text, is_digit, digits_value}
use railway.Text.Print.{print_from, print_int}
use railway.Text.PrintLaws.{digits_value-print_from, print_from-digit}
use railway.Base.Int.{pos}

abbrev pub Lacks : ℕ → Text → Type 0
Lacks b [] = Unit
Lacks b (c ∷ s) = ((c == b) ≡ false) × Lacks b s

pub Lacks-append : (b : ℕ) (s t : Text) → Lacks b s → Lacks b t → Lacks b (s ++ t)
Lacks-append b [] t h k = k
Lacks-append b (c ∷ s) t (h, hs) k = (h, Lacks-append b s t hs k)

digit-ne : (b d : ℕ) → is_digit b ≡ false → d < 10 → ((b'0' + d) == b) ≡ false
unfolding is_digit
digit-ne b d h k = ground arith

print_from-Lacks :
    (b fuel n : ℕ) (acc : Text) → is_digit b ≡ false → Lacks b acc → Lacks b (print_from fuel n acc)
unfolding print_from
print_from-Lacks b zero n acc h k = k
print_from-Lacks b (suc fuel) n acc h k = elim (Bool-cases (ltb n 10)) [
  | inl small ↦ rw small (digit-ne b n h (ground arith), k)
  | inr big ↦ rw big (print_from-Lacks b fuel (n / 10) _ h (digit-ne b (n % 10) h (omega arith), k))
]

-- The decimal form of a natural number has digits only.
pub print_int-Lacks : (b n : ℕ) → is_digit b ≡ false → Lacks b (print_int (pos n))
unfolding print_int
print_int-Lacks b n h = print_from-Lacks b 19 n [] h tt

-- A text is split at the first place of a byte in one way.
pub split_unique :
    (b : ℕ) (s t x y : Text)
    → Lacks b s
    → Lacks b t
    → s ++ (b ∷ x) ≡ t ++ (b ∷ y)
    → (s ≡ t) × (x ≡ y)
split_unique b [] [] x y h k e = (refl, (cc))
split_unique b [] (d ∷ t) x y h (k, ks) e = absurd (ground arith)
split_unique b (c ∷ s) [] x y (h, hs) k e = absurd (ground arith)
split_unique b (c ∷ s) (d ∷ t) x y (h, hs) (k, ks) e =
    let rest : s ++ (b ∷ x) ≡ t ++ (b ∷ y) = cc in
    let (same, after) = split_unique b s t x y hs ks rest in
    let first : c ≡ d = cc in ((λ i. first i ∷ same i), after)

some_inj : {m n : ℕ} → some m ≡ some n → m ≡ n
some_inj e = cc

-- Numbers with the same decimal form are equal.
pub print_int_inj :
    (m n : ℕ) → m < 10 ^ 19 → n < 10 ^ 19 → print_int (pos m) ≡ print_int (pos n) → m ≡ n
unfolding print_int digits_value
print_int_inj m n h k e = some_inj (
    sym (digits_value-print_from 19 m [] h (omega arith))
    ∙ ap (digits_value 0) e
    ∙ digits_value-print_from 19 n [] k (omega arith))

-- The decimal form of a natural number begins with a digit.
pub print_int-digit :
    (n : ℕ) → n < 10 ^ 19 → (c : ℕ) × (s : Text) × (print_int (pos n) ≡ c ∷ s) × (is_digit c ≡ true)
unfolding print_int
print_int-digit n h = print_from-digit 19 n [] (omega arith) h
