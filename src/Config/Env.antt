-- ===== src/Config/Env.antt =====
-- envOr and envOrInt of api/internal/config/config.go, with the part of fmt.Sscanf that they use.
pub mod Laws
use railway.Base.{ℕ, ◌+◌, ◌-◌, ◌*◌, Option, none, some, [], ◌∷◌, ◌==◌, if◌then◌else◌}
use railway.Base.Int.{ℤ, pos}
use railway.Text.{
  Text, is_empty, is_digit, digits_value, negate, map_value, check_int64, is_space_1, is_space_2,
  is_space_3,
}

-- os.LookupEnv
abbrev pub Environment : Type 0
Environment = Text → Option Text

abbrev non_empty : Text → Option Text → Text
non_empty fallback none = fallback
non_empty fallback (some val) = if is_empty val then fallback else val

unfoldable pub env_or : Environment → Text → Text → Text
env_or env key fallback = non_empty fallback (env key)

-- s without the spaces at its front that %d skips; a line feed among them is an error.
unfoldable pub skip_space : Text → Option Text
unfolding is_space_1 is_space_2 is_space_3
skip_space [] = some []
skip_space (a ∷ []) = if a == 10 then none else if is_space_1 a then some [] else some (a ∷ [])
skip_space (a ∷ b ∷ []) =
    let one = skip_space (b ∷ []) in
    if a == 10
    then none
    else if is_space_1 a
    then one
    else if is_space_2 a b
    then some []
    else some (a ∷ b ∷ [])
skip_space (a ∷ b ∷ c ∷ s) =
    let one = skip_space (b ∷ c ∷ s) in
    let two = skip_space (c ∷ s) in
    let three = skip_space s in
    if a == 10
    then none
    else if is_space_1 a
    then one
    else if is_space_2 a b
    then two
    else if is_space_3 a b c
    then three
    else some (a ∷ b ∷ c ∷ s)

-- The decimal digits at the front of a text.
unfoldable pub leading_digits : Text → Text
unfolding is_digit
leading_digits [] = []
leading_digits (c ∷ s) = let rest = leading_digits s in if is_digit c then c ∷ rest else []

-- One digit at least, whatever follows them.
abbrev scan_digits : Text → Option ℕ
scan_digits [] = none
scan_digits (c ∷ s) = digits_value 0 (c ∷ s)

abbrev scan_signed : Text → Option ℤ
scan_signed [] = none
scan_signed (c ∷ s) =
    if c == b'-'
    then map_value negate (scan_digits (leading_digits s))
    else if c == b'+'
    then map_value pos (scan_digits (leading_digits s))
    else map_value pos (scan_digits (leading_digits (c ∷ s)))

abbrev scan_skipped : Option Text → Option ℤ
scan_skipped none = none
scan_skipped (some s) = check_int64 (scan_signed s)

-- fmt.Sscanf(s, "%d", …), `none` for an error; what follows the number is not read.
unfoldable pub sscanf_d : Text → Option ℤ
sscanf_d s = scan_skipped (skip_space s)

abbrev or_fallback : ℤ → Option ℤ → ℤ
or_fallback fallback none = fallback
or_fallback fallback (some n) = n

abbrev scanned : ℤ → Option Text → ℤ
scanned fallback none = fallback
scanned fallback (some val) = if is_empty val then fallback else or_fallback fallback (sscanf_d val)

unfoldable pub env_or_int : Environment → Text → ℤ → ℤ
env_or_int env key fallback = scanned fallback (env key)
