-- ===== src/Escrow/Eth/Bytes/Laws.antt =====
-- A bytes32 has 32 bytes and keeps the first 32 of its text, and the bytes of a number give it back.
use railway.Base.{
  ℕ, zero, suc, ◌+◌, ◌-◌, ◌*◌, ◌/◌, ◌%◌, ◌≤◌, ◌<◌, ◌≡◌, ◌∙◌, ap, sym, [], ◌∷◌, arith, length, take,
  replicate, length-append, length-replicate, Bool-cases, inl, inr, ◌==◌,
}
use railway.Text.{Text}
use railway.Escrow.Eth.Bytes.{to_bytes32, bytes_from, natural_bytes}

length-take : (n : ℕ) (s : Text) → length (take n s) + (length s - n) ≡ length s
length-take zero s = omega arith
length-take (suc n) [] = omega arith
length-take (suc n) (c ∷ s) = omega (arith, length-take n s)

length-take-le : (n : ℕ) (s : Text) → length (take n s) ≤ n
length-take-le zero s = omega arith
length-take-le (suc n) [] = omega arith
length-take-le (suc n) (c ∷ s) = omega (arith, length-take-le n s)

-- Whatever the text, toBytes32 gives 32 bytes.
pub length-to_bytes32 : (s : Text) → length (to_bytes32 s) ≡ 32
unfolding to_bytes32
length-to_bytes32 s = omega (
  arith,
  length-append (take 32 s) (replicate (32 - length s) 0),
  length-replicate {A = ℕ} (32 - length s) 0,
  length-take 32 s,
  length-take-le 32 s,
)

-- Texts of 32 bytes or more that begin alike are one bytes32.
pub to_bytes32_prefix :
    (s t : Text)
    → 32 ≤ length s
    → 32 ≤ length t
    → take 32 s ≡ take 32 t
    → to_bytes32 s ≡ to_bytes32 t
unfolding to_bytes32
to_bytes32_prefix s t hs ht e =
    let a : 32 - length s ≡ 0 = omega arith in
    let b : 32 - length t ≡ 0 = omega arith in rw (a, b, e)

-- The number of which `s` holds the bytes, after `acc`.
abbrev pub of_bytes : ℕ → Text → ℕ
of_bytes acc [] = acc
of_bytes acc (b ∷ s) = of_bytes (acc * 256 + b) s

of_bytes-bytes_from :
    (fuel n : ℕ) (acc : Text) → n < fuel → of_bytes 0 (bytes_from fuel n acc) ≡ of_bytes n acc
unfolding bytes_from
of_bytes-bytes_from zero n acc h = absurd (omega arith)
of_bytes-bytes_from (suc fuel) n acc h = elim (Bool-cases (n == 0)) [
  | inl done ↦ let e : n ≡ 0 = ground arith in rw done (ap (λ m. of_bytes m acc) (sym e))
  | inr more ↦ rw more (
      of_bytes-bytes_from fuel (n / 256) ((n % 256) ∷ acc) (ground arith)
      ∙ ap (λ m. of_bytes m acc) (omega arith))
]

-- The bytes of a number give it back: the fuel is enough.
pub of_bytes-natural_bytes : (n : ℕ) → of_bytes 0 (natural_bytes n) ≡ n
unfolding natural_bytes
of_bytes-natural_bytes n = of_bytes-bytes_from (suc n) n [] (omega arith)
