-- ===== src/Text/Print.antt =====
-- The decimal form of an integer, as the verb %d of fmt writes it.
use railway.Base.{ℕ, zero, suc, ◌+◌, ◌/◌, ◌%◌, ltb, [], ◌∷◌, if◌then◌else◌}
use railway.Base.Int.{ℤ, pos, negsuc}
use railway.Text.Defs.{Text}

-- The digits of n before `acc`, with fuel for the number of digits.
unfoldable pub print_from : ℕ → ℕ → Text → Text
print_from zero n acc = acc
print_from (suc fuel) n acc =
    let more = print_from fuel (n / 10) ((b'0' + n % 10) ∷ acc) in
    if ltb n 10 then (b'0' + n) ∷ acc else more

-- An int64 has at most 19 digits.
unfoldable pub print_int : ℤ → Text
unfolding print_from
print_int (pos n) = print_from 19 n []
print_int (negsuc n) = b'-' ∷ print_from 19 (suc n) []
